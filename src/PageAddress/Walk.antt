-- ===== src/PageAddress/Walk.antt =====
-- The way through two lists, when nothing in the cache waits to be written.
use paffs.Prelude.{
  ℕ, ℕ_discrete, Bool-cases, inl, inr, ◌/◌, ◌%◌, ◌^◌, ◌≡◌, sym, ap, subst, ◌∙◌, true, false, not,
  ◌||◌, List, [], ◌∷◌, if◌then◌else◌, get_or, arith,
}
use paffs.Types.{Result, ok, Inode}
use paffs.PageAddress.{
  last_list, AddrList, ListOps, get_addr, path, load_elem, commit_elem, is_elsewhere, place,
  load_child, load_children, load_path, PageCache, get_doubl,
}

-- A list in the cache that is in use holds what is in flash where its parent says.
pub record IsLoaded (lists : ℕ → List ℕ) (from : ℕ) (e : AddrList) : Type 0 where
  pub clean : e.dirty ≡ false
  pub cache : (if e.active then e.cache else lists from) ≡ lists from

module _ {W : Type 0} (ops : ListOps W) (size : ℕ) (lists : ℕ → List ℕ) where
  unfoldable loaded : ℕ → AddrList → AddrList
  loaded from e = record e { cache = lists from; active = true; dirty = false }

  load_elem-readable :
      (from : ℕ) (e : AddrList) (w : W)
      → ops.read_list from w ≡ (ok, lists from)
      → load_elem ops size from e w ≡ (ok, loaded from e)
  unfolding load_elem loaded
  load_elem-readable from e w readable = ground (arith, readable)

  module _ (parent e : AddrList) (digit : ℕ) (w : W)
      (placed : IsLoaded lists (get_addr parent e.position) e)
      (readable : ops.read_list (get_addr parent digit) w
        ≡ (ok, lists (get_addr parent digit))) where
    unfoldable found : AddrList
    found =
        if not e.active || is_elsewhere e digit
        then record (loaded (get_addr parent digit) e) { position = digit }
        else e

    place-readable : place ops size parent e digit w ≡ (ok, (parent, found))
    unfolding place found
    place-readable = ground (arith, load_elem-readable (get_addr parent digit) e w readable)

    commit_elem-clean : e.active ≡ true → commit_elem ops size parent e w ≡ (ok, (parent, (e, w)))
    unfolding commit_elem
    commit_elem-clean active = ground (arith, active, placed.clean)

    load_child-readable : load_child ops size parent e digit w ≡ (ok, (parent, (found, w)))
    unfolding load_child
    load_child-readable = elim (Bool-cases e.active) [
      | inl active ↦ ground (arith, active, commit_elem-clean active, place-readable)
      | inr idle ↦ ground (arith, idle, place-readable)
    ]

    found-cache : found.cache ≡ lists (get_addr parent digit)
    unfolding found loaded
    found-cache = elim (ℕ_discrete e.position digit) [
      | yes same ↦ ground (arith, same, placed.cache, ap (λ k. lists (get_addr parent k)) same)
      | no ne ↦ ground (arith, ne)
    ]

  module _ (anchor page : ℕ) (first e : AddrList) (w : W) (top : IsLoaded lists anchor first)
      (readable : ops.read_list anchor w ≡ (ok, lists anchor)) where
    abbrev from_anchor : AddrList
    from_anchor = if first.active then first else loaded anchor first

    from_anchor-cache : from_anchor.cache ≡ lists anchor
    unfolding loaded
    from_anchor-cache = elim (Bool-cases first.active) [
      | inl active ↦ ground (arith, active, top.cache)
      | inr idle ↦ ground (arith, idle)
    ]

    load_path-children :
        load_path ops size anchor 1 page first (e ∷ []) w
        ≡ load_children ops size (path size 1 page) from_anchor (e ∷ []) w
    unfolding load_path
    load_path-children = elim (Bool-cases first.active) [
      | inl active ↦ ground (arith, active)
      | inr idle ↦ ground (arith, idle, load_elem-readable anchor first w readable)
    ]

    abbrev child : ℕ
    child = get_or (lists anchor) (page / size ^ 1 % size) 0

    module _ (placed : IsLoaded lists (get_or (lists anchor) e.position 0) e)
        (child_readable : ops.read_list child w ≡ (ok, lists child)) where
      below : IsLoaded lists (get_addr from_anchor e.position) e
      unfolding get_addr
      below = subst (λ xs. IsLoaded lists (get_or xs e.position 0) e) (sym from_anchor-cache) placed

      at_child :
          ops.read_list (get_addr from_anchor (page / size ^ 1 % size)) w
          ≡ (ok, lists (get_addr from_anchor (page / size ^ 1 % size)))
      unfolding get_addr
      at_child =
          subst
            (λ xs.
              ops.read_list (get_or xs (page / size ^ 1 % size) 0) w
              ≡ (ok, lists (get_or xs (page / size ^ 1 % size) 0)))
            (sym from_anchor-cache) child_readable

      load_path-found : load_path ops size anchor 1 page first (e ∷ []) w ≡ (
        ok,
        (from_anchor, (found from_anchor e (page / size ^ 1 % size) w below at_child ∷ [], w)),
      )
      unfolding load_children path
      load_path-found =
          load_path-children
          ∙ ground
              (arith, load_child-readable from_anchor e (page / size ^ 1 % size) w below at_child)

      last-addr :
          get_addr (found from_anchor e (page / size ^ 1 % size) w below at_child) (page % size)
          ≡ get_or (lists (get_or (lists anchor) (page / size ^ 1 % size) 0)) (page % size) 0
      unfolding get_addr
      last-addr =
          ap (λ xs. get_or xs (page % size) 0)
            (found-cache from_anchor e (page / size ^ 1 % size) w below at_child)
          ∙ ap (λ xs. get_or (lists (get_or xs (page / size ^ 1 % size) 0)) (page % size) 0)
              from_anchor-cache

-- If the anchor list and the list that the page's first digit leads to can be read, and the two lists
-- in the cache are those in flash, the second indirection answers the address that the lists lead to.
pub get_doubl_lem :
    {W : Type 0} (ops : ListOps W) (size : ℕ) (lists : ℕ → List ℕ) (page : ℕ) (node : Inode)
    (c : PageCache) (e : AddrList) (w : W)
    → ops.read_list node.d_indir w ≡ (ok, lists node.d_indir)
    → ops.read_list (get_or (lists node.d_indir) (page / size ^ 1 % size) 0) w
      ≡ (ok, lists (get_or (lists node.d_indir) (page / size ^ 1 % size) 0))
    → c.doubl_rest ≡ e ∷ []
    → IsLoaded lists node.d_indir c.doubl
    → IsLoaded lists (get_or (lists node.d_indir) e.position 0) e
    → ((get_doubl ops size page node c w).0 ≡ ok)
      × ((get_doubl ops size page node c w).1.0
          ≡ get_or (lists (get_or (lists node.d_indir) (page / size ^ 1 % size) 0)) (page % size) 0)
unfolding get_doubl
get_doubl_lem {W = W} ops size lists page node c e w anchor_ok child_ok one top placed =
    let way =
      ap (λ es. load_path ops size node.d_indir 1 page c.doubl es w) one
      ∙ load_path-found ops size lists node.d_indir page c.doubl e w top anchor_ok placed
          child_ok in
    (
      ap (λ (r : Result × (AddrList × (List AddrList × W))). r.0) way,
      ap
            (λ (r : Result × (AddrList × (List AddrList × W))).
              get_addr (last_list r.1.0 r.1.1.0) (page % size))
            way
          ∙ last-addr ops size lists node.d_indir page c.doubl e w top anchor_ok placed child_ok,
    )
