-- ===== src/PageState/Live.antt =====
-- An operation that replaces pages and is not broken off.
use paffs.Prelude.{
  ℕ, ◌+◌, ◌≤◌, ◌<◌, ◌≡◌, refl, sym, ap, Bool, true, false, List, [], ◌∷◌, ◌++◌, if◌then◌else◌,
  length, map, arith, length-append,
}
use paffs.Types.{ok, low_mem}
use paffs.Journal.{Topic}
use paffs.PageState.{PageOps, PageState, clear, replace, invalidate}
use paffs.PageState.Holds.{
  Replacement, Holds, stored-Holds, clear-Holds, dirty_all, any_page, dirty_from-Agrees,
  any_from-Agrees,
}
use paffs.PageState.Recovery.{run, announce, run-Holds, replace-stored}
use paffs.PageState.Crash.{completed}

module _ {W : Type 0} (ops : PageOps W) (max_pages max_positions : ℕ) (target : Topic)
    (small : max_pages < 65536) where
  abbrev emptied : PageState
  emptied = clear ops max_pages max_positions target

  abbrev held : List Replacement → W → PageState
  held rs w = (run ops max_pages max_positions target rs (emptied, w)).0

  held-Holds :
      (rs : List Replacement) (w : W)
      → length rs ≤ max_pages
      → Holds max_pages max_positions rs (held rs w)
  held-Holds rs w room =
      run-Holds ops max_pages max_positions target small rs [] emptied w (omega arith)
        (clear-Holds ops max_pages max_positions target)

  run-announces :
      (rs done : List Replacement) (s : PageState) (w : W)
      → length done + length rs ≤ max_pages
      → Holds max_pages max_positions done s
      → (run ops max_pages max_positions target rs (s, w)).1
        ≡ announce ops max_pages max_positions target rs w
  run-announces [] done s w room h = refl
  run-announces (r ∷ rs) done s w room h =
      rw (run, replace-stored ops max_pages max_positions target small r done s w (omega arith) h)
        (run-announces rs (done ++ (r ∷ [])) _ _ (omega (arith, length-append done (r ∷ [])))
          (stored-Holds ops max_pages max_positions target done r s small (omega arith) h))

  nothing_dirty :
      (pages : List ℕ) (w : W)
      → any_page ops max_pages max_positions target pages ≡ false
      → dirty_all ops max_pages max_positions target pages w ≡ w
  unfolding any_page dirty_all
  nothing_dirty [] w h = refl
  nothing_dirty (a ∷ pages) w h = ground (arith, nothing_dirty pages w)

  abbrev is_any : List Replacement → Bool
  is_any rs = any_page ops max_pages max_positions target (map Replacement.old rs)

  if_any :
      (b : Bool) (rs : List Replacement) (w : W)
      → b ≡ is_any rs
      → (if b
          then completed ops max_pages max_positions target rs w
          else dirty_all ops max_pages max_positions target (map Replacement.old rs) w)
        ≡ (if b then completed ops max_pages max_positions target rs w else w)
  if_any true rs w h = refl
  if_any false rs w h = nothing_dirty (map Replacement.old rs) w (sym h)

  invalidate-Holds :
      (rs : List Replacement) (s : PageState) (w : W)
      → Holds max_pages max_positions rs s
      → invalidate ops max_pages max_positions target s w ≡ (
        ok,
        (emptied, if is_any rs then completed ops max_pages max_positions target rs w else w),
      )
  unfolding invalidate
  invalidate-Holds rs s w h =
      rw
        (
          h.count,
          any_from-Agrees ops max_pages max_positions target Replacement.old 0 rs s.old_pages
              h.olds,
          dirty_from-Agrees ops max_pages max_positions target Replacement.old 0 rs s.old_pages w
              h.olds,
        )
        (ap (λ v. (ok, (emptied, v))) (if_any (is_any rs) rs w refl))

  -- The calls of `replacePage` of an operation that fits into the lists write, call by call, the
  -- entry and the status of the new page; then `invalidateOldPages` empties the lists and, if any
  -- page was overwritten, does to the rest of the system what a recovery behind the success entry
  -- does, and else nothing.
  pub run-invalidate :
      (rs : List Replacement) (w w' : W)
      → length rs ≤ max_pages
      → ((run ops max_pages max_positions target rs (emptied, w)).1
          ≡ announce ops max_pages max_positions target rs w)
        × (invalidate ops max_pages max_positions target (held rs w) w' ≡ (
          ok,
          (emptied, if is_any rs then completed ops max_pages max_positions target rs w' else w'),
        ))
  run-invalidate rs w w' room = (
    run-announces rs [] emptied w (omega arith) (clear-Holds ops max_pages max_positions target),
    invalidate-Holds rs (held rs w) w' (held-Holds rs w room),
  )

  -- With the lists full, `replacePage` changes nothing and says so.
  pub replace-full :
      (rs : List Replacement) (r : Replacement) (w : W)
      → length rs ≡ max_pages
      → replace ops max_pages max_positions target r.neu r.old r.inode r.pos
          (held rs w)
          (run ops max_pages max_positions target rs (emptied, w)).1
        ≡ (low_mem, run ops max_pages max_positions target rs (emptied, w))
  unfolding replace
  replace-full rs r w room =
      let h : Holds max_pages max_positions rs (held rs w) = held-Holds rs w (omega arith) in
      ground (arith, h.count)
