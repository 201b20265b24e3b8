-- ===== src/DataIo/Deleting.antt =====
-- A file that is cut off keeps its front.
use paffs.Prelude.{
  ℕ, zero, suc, ◌+◌, ◌≤◌, ◌<◌, ◌≡◌, ◌≢◌, refl, sym, ap, ◌∙◌, ◌⊎◌, inl, inr, Bool, true, false,
  ==_iff, ==-ne, Bool-cases, ℕ_discrete, u16, arith,
}
use paffs.Types.{Result, ok, SummaryEntry, Inode, Config}
use paffs.Calls.{go, bind-go}
use paffs.DataIo.{IoOps, is_sane}
use paffs.DataIo.Delete.{Deleter, is_dirty, forget_page, check_page, delete_one, delete_pages}
use paffs.Addr.{extract_logical_area, extract_page_offs}
use paffs.DataIo.Marks.{IsOld, IsOld-keep, IsOld-grow, KeepsOld, replace_by_none-Shows}
use paffs.DataIo.Content.{View, with_addr, IoLaws}

module _ {W : Type 0} (c : Config) (size max_pages limit : ℕ) (ops : IoOps W)
    (laws : IoLaws c size max_pages limit ops)
    (status_at : ℕ → ℕ → W → Result × (SummaryEntry × W)) where
  -- What a deletion relies on besides: no page of the file is dirty, and a page can be taken away.
  pub record DeleteLaws : Type 0 where
    pub status_ok :
        (page : ℕ) (w : W) (v : View)
        → laws.Shows w v
        → page < limit
        → v.addr page ≢ 0
        → (state : SummaryEntry) × (w' : W) × (status_at
              (extract_logical_area (v.addr page))
              (extract_page_offs (v.addr page))
              w
            ≡ (ok, (state, w')))
          × (is_dirty state ≡ false)
          × laws.Shows w' v
    pub clear_page_ok :
        (page : ℕ) (w : W) (v : View)
        → laws.Shows w v
        → page < limit
        → (w' : W) × (ops.set_page page 0 w ≡ (ok, w'))
          × laws.Shows w' (record (with_addr page 0 v) { addresses = ops.addresses w' })

  -- Pages without an address, and all others as before.
  pub record IsCut (from n : ℕ) (v v' : View) : Type 0 where
    pub same_target : v'.target ≡ v.target
    pub gone : (p : ℕ) → from ≤ p → p < n + from → v'.addr p ≡ 0
    pub kept : (p : ℕ) → (p < from) ⊎ (n + from ≤ p) → v'.addr p ≡ v.addr p
    pub bytes : (a i : ℕ) → v'.byte a i ≡ v.byte a i

  module _ (delete_laws : DeleteLaws) (node : Inode) where
    check_lem :
        (journal_mode : Bool) (page : ℕ) (v : View) (s : Deleter W)
        → laws.Shows s.world v
        → page < limit
        → v.addr page ≢ 0
        → (w : W) × (check_page c size max_pages ops status_at journal_mode (v.addr page) s
            ≡ go tt (record s { world = w }))
          × laws.Shows w v
    unfolding check_page
    check_lem journal_mode page v s shown low ne =
        let sane : is_sane c size max_pages ops (v.addr page) s.world ≡ true =
          laws.sane s.world v (v.addr page) shown (laws.addr_written s.world v page shown low ne) in
        let (state, w, e, clean, shown1) = delete_laws.status_ok page s.world v shown low ne in
        elim (Bool-cases journal_mode) [
          | inl replayed ↦ (s.world, rw (sane, replayed) refl, shown)
          | inr live ↦ (w, rw (sane, live, e, clean) refl, shown1)
        ]

    -- The page that is given up is not in the file any more.
    abbrev cut_off : ℕ → W → View → View
    cut_off page w v = record (with_addr page 0 v) { addresses = ops.addresses w }

    cut_off-KeepsOld :
        (page : ℕ) (w : W) (v : View)
        → KeepsOld c size max_pages limit ops laws v (cut_off page w v)
    cut_off-KeepsOld page w v o nonzero was out = (
      was,
      λ q lt e. elim (ℕ_discrete q page) [
        | yes eq ↦ absurd (ground (arith, e, eq, nonzero))
        | no away ↦ out q lt (ground (arith, e, away))
      ],
    )

    forget_lem :
        (page : ℕ) (v : View) (s : Deleter W)
        → laws.Shows s.world v
        → page < limit
        → v.addr page ≢ 0
        → IsOld c size max_pages limit ops laws s.machine v
        → (s' : Deleter W) × (w : W) × (forget_page c size max_pages ops status_at node page
              (v.addr page)
              s
            ≡ go tt s')
          × laws.Shows s'.world (cut_off page w v)
          × IsOld c size max_pages limit ops laws s'.machine (cut_off page w v)
    unfolding forget_page
    forget_lem page v s shown low ne old =
        let (r, m1, w1, replaced, shown1, grew) =
          replace_by_none-Shows c size max_pages limit ops laws (v.addr page) node.no page s.machine
            s.world v shown old in
        let (w, e, shown2) = delete_laws.clear_page_ok page w1 v shown1 low in
        (
          record { world = w; machine = m1; reserved = u16 (s.reserved + 65535) },
          w,
          rw (replaced, e) refl,
          shown2,
          elim grew [
            | inl same ↦ rw same (
                IsOld-keep c size max_pages limit ops laws s.machine v (cut_off page w v) old
                  (cut_off-KeepsOld page w v))
            | inr (room, more) ↦
                IsOld-grow c size max_pages limit ops laws (v.addr page) s.machine m1 v
                  (cut_off page w v) old more room
                  (λ some. (
                    laws.addr_written s.world v page shown low ne,
                    λ q lt at. elim (ℕ_discrete q page) [
                      | yes eq ↦ absurd (ground (arith, at, eq, ne))
                      | no away ↦
                          let same : v.addr q ≡ v.addr page = ground (arith, at, away) in
                          away
                            (sym (laws.addr_distinct s.world v page q shown low lt ne (sym same)))
                    ],
                  ))
                  (cut_off-KeepsOld page w v)
          ],
        )

    cleared : (page : ℕ) (w : W) (v : View) → IsCut page 1 v (cut_off page w v)
    cleared page w v = record {
      same_target = refl;
      gone = λ p a b. ground (arith);
      kept = λ p out. ground (arith, out);
      bytes = λ a i. refl;
    }

    no_page : (page : ℕ) (v : View) → v.addr page ≡ 0 → IsCut page 1 v v
    no_page page v e = record {
      same_target = refl;
      gone = λ p a b. let same : p ≡ page = omega arith in ap v.addr same ∙ e;
      kept = λ p out. refl;
      bytes = λ a i. refl;
    }

    -- One page: its address is gone.
    delete_one_lem :
        (journal_mode : Bool) (page : ℕ) (v : View) (s : Deleter W)
        → laws.Shows s.world v
        → page < limit
        → IsOld c size max_pages limit ops laws s.machine v
        → (s' : Deleter W) × (v' : View) × (delete_one c size max_pages ops status_at node
              journal_mode page s
            ≡ go tt s')
          × laws.Shows s'.world v'
          × IsOld c size max_pages limit ops laws s'.machine v'
          × IsCut page 1 v v'
    unfolding delete_one
    delete_one_lem journal_mode page v s shown low old =
        let (w, got, shown1) = laws.get_page_ok s.world v page shown low in
        elim (ℕ_discrete (v.addr page) 0) [
          | yes e ↦ (
            record s { world = w },
            v,
            rw (got, (==_iff (v.addr page) 0).1 e) refl,
            shown1,
            old,
            no_page page v e,
          )
          | no ne ↦
              let (w2, checked, shown2) =
                check_lem journal_mode page v (record s { world = w }) shown1 low ne in
              let (s', w3, forgotten, shown3, old3) =
                forget_lem page v (record s { world = w2 }) shown2 low ne old in
              (
                s',
                cut_off page w3 v,
                rw (got, ==-ne (v.addr page) 0 ne)
                    (bind-go (check_page c size max_pages ops status_at journal_mode (v.addr page))
                        (λ _. forget_page c size max_pages ops status_at node page (v.addr page))
                        checked
                      ∙ forgotten),
                shown3,
                old3,
                cleared page w3 v,
              )
        ]

    pub delete_pages_lem :
        (journal_mode : Bool) (from n : ℕ) (v : View) (s : Deleter W)
        → laws.Shows s.world v
        → n + from ≤ limit
        → IsOld c size max_pages limit ops laws s.machine v
        → (s' : Deleter W) × (v' : View) × (delete_pages c size max_pages ops status_at node
              journal_mode from n s
            ≡ go tt s')
          × laws.Shows s'.world v'
          × IsOld c size max_pages limit ops laws s'.machine v'
          × IsCut from n v v'
    unfolding delete_pages
    delete_pages_lem journal_mode from zero v s shown low old = (
      s,
      v,
      refl,
      shown,
      old,
      record {
        same_target = refl;
        gone = λ p a b. absurd (omega arith);
        kept = λ p out. refl;
        bytes = λ a i. refl;
      },
    )
    delete_pages_lem journal_mode from (suc n) v s shown low old =
        let (s1, v1, e1, shown1, old1, one) =
          delete_one_lem journal_mode (n + from) v s shown (omega arith) old in
        let (s', v', e', shown', old', rest) =
          delete_pages_lem journal_mode from n v1 s1 shown1 (omega arith) old1 in
        (
          s',
          v',
          bind-go (delete_one c size max_pages ops status_at node journal_mode (n + from))
                (λ _. delete_pages c size max_pages ops status_at node journal_mode from n) e1
              ∙ e',
          shown',
          old',
          record {
            same_target = rest.same_target ∙ one.same_target;
            gone = λ p a b. elim (ℕ_discrete p (n + from)) [
              | yes eq ↦ rest.kept p (inr (omega arith)) ∙ one.gone p (omega arith) (omega arith)
              | no ne ↦ rest.gone p a (omega (arith, ne))
            ];
            kept = λ p out. rest.kept p (ground (arith, out)) ∙ one.kept p (ground (arith, out));
            bytes = λ a i. rest.bytes a i ∙ one.bytes a i;
          },
        )
