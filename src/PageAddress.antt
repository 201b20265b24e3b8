-- ===== src/PageAddress.antt =====
-- src/pageAddressCache.cpp: the address lists that a file's inode leads to, and the way to the list
-- with the address of a page. `size` is `addrsPerPage`.
pub mod Walk
use paffs.Prelude.{
  Option, none, some, ℕ, zero, suc, ◌+◌, ◌-◌, ◌*◌, ◌/◌, ◌%◌, ◌^◌, Bool, true, false, not, ◌&&◌,
  ◌||◌, List, [], ◌∷◌, ltb, ◌==◌, if◌then◌else◌, get_or, set,
}
use paffs.Types.{Result, ok, bug, biterror_corrected, too_big, is_ok, Inode}

-- `AddrListCacheElem`
pub record AddrList : Type 0 where
  pub cache : List ℕ
  pub position : ℕ  -- `positionInParent`
  pub dirty : Bool
  pub active : Bool

unfoldable pub set_addr : ℕ → ℕ → AddrList → AddrList
set_addr pos addr e =
    if get_or e.cache pos 0 == addr
    then e
    else record e { cache = set e.cache pos addr; dirty = true }

unfoldable pub get_addr : AddrList → ℕ → ℕ
get_addr e pos = get_or e.cache pos 0

-- Whether one of `r` addresses from `i` on is not 0.
unfoldable pub has_valid : ℕ → ℕ → AddrList → Bool
has_valid zero i e = false
has_valid (suc r) i e =
    let rest : Bool = has_valid r (i + 1) e in if get_addr e i == 0 then rest else true

-- The lists in flash: `readAddrList`, `writeAddrList` with the old address and the new one, and
-- `setPageStatus` of an address page that is given up.
pub record ListOps (W : Type 0) : Type 0 where
  pub read_list : ℕ → W → Result × List ℕ
  pub write_list : ℕ → List ℕ → W → Result × (ℕ × W)
  pub give_up : ℕ → W → Result × W

-- The digits of a page's number: the positions in the lists, from the anchor on.
unfoldable pub path : ℕ → ℕ → ℕ → List ℕ
path size zero page = page % size ∷ []
path size (suc depth) page = page / size ^ suc depth % size ∷ path size depth page

abbrev pub is_elsewhere : AddrList → ℕ → Bool
is_elsewhere e digit = not (e.position == digit)

module _ {W : Type 0} (ops : ListOps W) (size : ℕ) where
  unfoldable pub load_elem : ℕ → AddrList → W → Result × AddrList
  load_elem from e w =
      let r : Result × List ℕ = ops.read_list from w in
      let read : AddrList = record e { cache = r.1 } in load_result r.0 read
    where
      load_result : Result → AddrList → Result × AddrList
      load_result ok read = (ok, record read { active = true; dirty = false })
      load_result biterror_corrected read = (ok, record read { active = true; dirty = true })
      load_result r read = (r, read)

  -- `commitElem`
  unfoldable pub commit_elem : AddrList → AddrList → W → Result × (AddrList × (AddrList × W))
  commit_elem parent e w =
      let old : ℕ = get_addr parent e.position in
      let freed : Result × W = ops.give_up old w in
      let written : Result × (ℕ × W) = ops.write_list old e.cache w in
      if not e.active
      then (bug, (parent, (e, w)))
      else if not e.dirty
      then (ok, (parent, (e, w)))
      else if has_valid size 0 e
      then (if is_ok written.0
          then (
            ok,
            (
              record parent { cache = set parent.cache e.position written.1.0; dirty = true },
              (record e { dirty = false }, written.1.1),
            ),
          )
          else (
            written.0,
            (record parent { cache = set parent.cache e.position written.1.0 }, (e, written.1.1)),
          ))
      else if is_ok freed.0
      then (
        ok,
        (
          record parent { cache = set parent.cache e.position 0; dirty = true },
          (record e { dirty = false; active = false }, freed.1),
        ),
      )
      else (freed.0, (parent, (e, freed.1)))

  -- One round of the loop of `loadPath`: first the old list is committed, then the new one loaded.
  unfoldable pub place : AddrList → AddrList → ℕ → W → Result × (AddrList × AddrList)
  place parent e digit w =
      let r : Result × AddrList = load_elem (get_addr parent digit) e w in
      let at_digit : AddrList = record r.1 { position = digit } in
      if not e.active || is_elsewhere e digit
      then (if is_ok r.0 then (ok, (parent, at_digit)) else (r.0, (parent, r.1)))
      else (ok, (parent, e))

  unfoldable pub load_child : AddrList → AddrList → ℕ → W → Result × (AddrList × (AddrList × W))
  load_child parent e digit w =
      let committed : Result × (AddrList × (AddrList × W)) = commit_elem parent e w in
      let from_committed : Result × (AddrList × AddrList) =
        place committed.1.0 committed.1.1.0 digit committed.1.1.1 in
      let direct : Result × (AddrList × AddrList) = place parent e digit w in
      if e.active && is_elsewhere e digit
      then (if is_ok committed.0
          then (from_committed.0, (from_committed.1.0, (from_committed.1.1, committed.1.1.1)))
          else committed)
      else (direct.0, (direct.1.0, (direct.1.1, w)))

  -- The loop over the lists behind the first one, and the position in the last.
  unfoldable pub load_children :
      List ℕ → AddrList → List AddrList → W → Result × (AddrList × (List AddrList × W))
  load_children digits parent [] w = (ok, (parent, ([], w)))
  load_children [] parent (e ∷ es) w = (ok, (parent, (e ∷ es, w)))
  load_children (digit ∷ digits) parent (e ∷ es) w =
      let s : Result × (AddrList × (AddrList × W)) = load_child parent e digit w in
      let t : Result × (AddrList × (List AddrList × W)) = load_children digits s.1.1.0 es s.1.1.1 in
      if is_ok s.0
      then (t.0, (s.1.0, (t.1.0 ∷ t.1.1.0, t.1.1.1)))
      else (s.0, (s.1.0, (s.1.1.0 ∷ es, s.1.1.1)))

  unfoldable pub load_path :
      ℕ → ℕ → ℕ → AddrList → List AddrList → W → Result × (AddrList × (List AddrList × W))
  load_path anchor depth page first rest w =
      let r : Result × AddrList = load_elem anchor first w in
      let digits : List ℕ = path size depth page in
      if first.active
      then load_children digits first rest w
      else if is_ok r.0
      then load_children digits r.1 rest w
      else (r.0, (r.1, (rest, w)))

pub record PageCache : Type 0 where
  pub inode : Option Inode  -- `mInodePtr`
  pub singl : AddrList
  pub doubl : AddrList
  pub doubl_rest : List AddrList
  pub tripl : AddrList
  pub tripl_rest : List AddrList

abbrev no_list : AddrList
no_list = record { cache = []; position = 0; dirty = false; active = false }

-- The last list of a path.
abbrev pub last_list : AddrList → List AddrList → AddrList
last_list e [] = e
last_list e (x ∷ xs) = last_list x xs

module _ {W : Type 0} (ops : ListOps W) (size : ℕ) where
  abbrev Found : Type 0
  Found = Result × (ℕ × (PageCache × W))

  -- The first indirection.
  unfoldable pub get_singl : ℕ → Inode → PageCache → W → Found
  get_singl page node c w =
      let r : Result × AddrList = load_elem ops size node.indir c.singl w in
      if c.singl.active
      then (ok, (get_addr c.singl page, (c, w)))
      else if is_ok r.0
      then (ok, (get_addr r.1 page, (record c { singl = r.1 }, w)))
      else (r.0, (0, (record c { singl = r.1 }, w)))

  -- The second and the third indirection.
  unfoldable pub get_doubl : ℕ → Inode → PageCache → W → Found
  get_doubl page node c w =
      let r : Result × (AddrList × (List AddrList × W)) =
        load_path ops size node.d_indir 1 page c.doubl c.doubl_rest w in
      let c' : PageCache = record c { doubl = r.1.0; doubl_rest = r.1.1.0 } in
      (r.0, (get_addr (last_list r.1.0 r.1.1.0) (page % size), (c', r.1.1.1)))

  unfoldable pub get_tripl : ℕ → Inode → PageCache → W → Found
  get_tripl page node c w =
      let r : Result × (AddrList × (List AddrList × W)) =
        load_path ops size node.t_indir 2 page c.tripl c.tripl_rest w in
      let c' : PageCache = record c { tripl = r.1.0; tripl_rest = r.1.1.0 } in
      (r.0, (get_addr (last_list r.1.0 r.1.1.0) (page % size), (c', r.1.1.1)))

  -- `getPage`; the address counts only with the result ok.
  abbrev get_page_of : ℕ → Inode → PageCache → W → Found
  get_page_of page node c w =
      let p1 : ℕ = page - 11 in
      let p2 : ℕ = page - 11 - size in
      let p3 : ℕ = page - 11 - size - size ^ 2 in
      if ltb page 11
      then (ok, (get_or node.direct page 0, (c, w)))
      else if ltb p1 size
      then get_singl p1 node c w
      else if ltb p2 (size ^ 2)
      then get_doubl p2 node c w
      else if ltb p3 (size ^ 3)
      then get_tripl p3 node c w
      else (too_big, (0, (c, w)))

  unfoldable pub get_page : ℕ → PageCache → W → Found
  get_page page c w = elim c.inode [
    | none ↦ (bug, (0, (c, w)))
    | some node ↦ get_page_of page node c w
  ]
