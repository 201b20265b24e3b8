-- ===== src/PageState/Crash.antt =====
-- A power loss at any point of an operation that replaces pages.
use paffs.Prelude.{
  ℕ, zero, suc, ◌+◌, ◌≤◌, ◌<◌, ◌≡◌, refl, ap, ◌∙◌, Bool, true, false, List, [], ◌∷◌, ◌++◌, ◌==◌,
  leb, if◌then◌else◌, length, map, take, arith, take-append_left, take-append_right, take-map,
  length-map, length-take, take-nil, ◌-◌, ==_iff,
}
use native.Mathlib.Decide.{dec_le}
use paffs.Journal.{Topic, PageEvent, success, invalidate_old_pages}
use paffs.PageState.{
  PageOps, PageState, JournalState, fine, invalid, recover, clear, with_position, dirty_from,
  process_entry, signal_end_of_log, log_invalidated, revert_pages,
}
use paffs.PageState.Holds.{
  Replacement, Holds, dirty_all, restore_all, dirty_from-Agrees, restore_from-Agrees,
}
use paffs.PageState.Recovery.{entry_of, feed, Interrupted, inode_of, feed_from_clear}

module _ {W : Type 0} (ops : PageOps W) (max_pages max_positions : ℕ) (target : Topic) where
  abbrev entries : List Replacement → List PageEvent
  entries rs = map (entry_of ops max_pages max_positions target) rs

  -- What an operation leaves in the log, up to the entry before its checkpoint.
  abbrev pub page_trace : List Replacement → List PageEvent
  page_trace rs = entries rs ++ (success ∷ invalidate_old_pages ∷ [])

  -- The new pages become dirty, and the file gets its old addresses back.
  abbrev reverted_pages : Bool → ℕ → List Replacement → W → W
  reverted_pages b inode rs w =
      if b
      then ops.commit
          (restore_all ops max_pages max_positions target rs (ops.set_journalling_inode inode w))
      else w

  abbrev pub reverted : ℕ → List Replacement → W → W
  reverted inode rs w = log_invalidated ops max_pages max_positions target (
      reverted_pages (with_position ops max_pages max_positions target) inode rs
        (dirty_all ops max_pages max_positions target (map Replacement.neu rs) w))

  -- The old pages become dirty.
  abbrev pub completed : List Replacement → W → W
  completed rs w =
      log_invalidated ops max_pages max_positions target
        (dirty_all ops max_pages max_positions target (map Replacement.old rs) w)

  abbrev emptied : PageState
  emptied = clear ops max_pages max_positions target

  -- The outcome of a restart by the number of entries that the log kept.
  abbrev pub outcome : ℕ → Replacement → List Replacement → W → JournalState × (PageState × W)
  outcome k r rs w =
      if k == 0
      then (fine, (emptied, w))
      else if leb k (length (r ∷ rs))
      then (invalid, (emptied, reverted r.inode (take k (r ∷ rs)) w))
      else if k == length (r ∷ rs) + 1
      then (recover, (emptied, completed (r ∷ rs) w))
      else (fine, (emptied, w))

  module _ (small : max_pages < 65536) where
    abbrev I : List Replacement → ℕ → PageState → Type 0
    I = Interrupted ops max_pages max_positions target small

    revert-eq :
        (b : Bool) (rs : List Replacement) (inode : ℕ) (s : PageState) (w : W)
        → Holds max_pages max_positions rs s
        → (b ≡ true → max_pages ≡ max_positions)
        → (b ≡ true → s.current_inode ≡ inode)
        → (if b then revert_pages ops max_pages max_positions target s w else w)
          ≡ reverted_pages b inode rs w
    revert-eq false rs inode s w h eq same = refl
    revert-eq true rs inode s w h eq same =
        rw (same refl, h.count)
          (ap ops.commit (
            restore_from-Agrees ops max_pages max_positions target 0 rs s.old_pages s.positions _
              h.olds (h.places (eq refl))))

    abbrev signal : PageState → W → JournalState × (PageState × W)
    signal = signal_end_of_log ops max_pages max_positions target

    abbrev read : List PageEvent → PageState
    read xs = feed ops max_pages max_positions target xs emptied

    abbrev wp : Bool
    wp = with_position ops max_pages max_positions target

    abbrev dirtied : PageState → W → W
    dirtied s w = dirty_from ops max_pages max_positions target s.high_water 0 s.new_pages w

    signal_invalid :
        (s : PageState) (w : W)
        → s.state ≡ invalid
        → signal s w ≡ (
          invalid,
          (
            emptied,
            log_invalidated ops max_pages max_positions target (
                if wp
                then revert_pages ops max_pages max_positions target s (dirtied s w)
                else dirtied s w),
          ),
        )
    unfolding signal_end_of_log
    signal_invalid s w h = rw h refl

    signal-Interrupted :
        (r : Replacement) (rs : List Replacement) (s : PageState) (w : W)
        → I (r ∷ rs) (inode_of ops max_pages max_positions target small r) s
        → signal s w ≡ (invalid, (emptied, reverted r.inode (r ∷ rs) w))
    signal-Interrupted r rs s w h =
        signal_invalid s w h.broken
        ∙ ap (λ v. (invalid, (emptied, log_invalidated ops max_pages max_positions target v)))
            (revert-eq wp (r ∷ rs) r.inode s (dirtied s w) h.shows (λ e. (==_iff _ _).0 e)
                (λ e. ground (arith, h.same_inode))
              ∙ ap (reverted_pages wp r.inode (r ∷ rs)) (
                  rw h.shows.count (
                    dirty_from-Agrees ops max_pages max_positions target Replacement.neu 0 (r ∷ rs)
                      s.new_pages w h.shows.news)))

    feed-append :
        (xs ys : List PageEvent) (s : PageState)
        → feed ops max_pages max_positions target (xs ++ ys) s
          ≡ feed ops max_pages max_positions target ys
              (feed ops max_pages max_positions target xs s)
    feed-append [] ys s = refl
    feed-append (x ∷ xs) ys s = feed-append xs ys _

    signal_success :
        (r : Replacement) (rs : List Replacement) (s : PageState) (w : W)
        → I (r ∷ rs) (inode_of ops max_pages max_positions target small r) s
        → signal (feed ops max_pages max_positions target (success ∷ []) s) w
          ≡ (recover, (emptied, completed (r ∷ rs) w))
    unfolding signal_end_of_log process_entry
    signal_success r rs s w h =
        rw
          (
            h.broken,
            h.shows.count,
            dirty_from-Agrees ops max_pages max_positions target Replacement.old 0 (r ∷ rs)
                s.old_pages w h.shows.olds,
          )
          refl

    signal_whole :
        (r : Replacement) (rs : List Replacement) (s : PageState) (w : W)
        → I (r ∷ rs) (inode_of ops max_pages max_positions target small r) s
        → signal (feed ops max_pages max_positions target (success ∷ invalidate_old_pages ∷ []) s) w
          ≡ (fine, (emptied, w))
    unfolding signal_end_of_log process_entry clear
    signal_whole r rs s w h = rw h.broken refl

    nothing_read : (w : W) → signal (read []) w ≡ (fine, (emptied, w))
    unfolding signal_end_of_log clear
    nothing_read w = refl

    module _ (r : Replacement) (rs : List Replacement) where
      cut_early :
          (j : ℕ) (w : W)
          → length (r ∷ rs) ≤ max_pages
          → j ≤ length rs
          → signal (read (take (suc j) (page_trace (r ∷ rs)))) w
            ≡ (invalid, (emptied, reverted r.inode (r ∷ take j rs) w))
      cut_early j w room h =
          ap (λ xs. signal (read xs) w)
            (take-append_left (suc j) (entries (r ∷ rs)) (success ∷ invalidate_old_pages ∷ [])
                (omega (arith, length-map (entry_of ops max_pages max_positions target) rs))
              ∙ take-map (entry_of ops max_pages max_positions target) (suc j) (r ∷ rs))
          ∙ signal-Interrupted r (take j rs) (read (entries (r ∷ take j rs))) w (
              feed_from_clear ops max_pages max_positions target small r (take j rs)
                (omega (arith, length-take j rs)))

      behind :
          (n k : ℕ) (w : W)
          → n ≡ length (r ∷ rs) + k
          → signal (read (take n (page_trace (r ∷ rs)))) w
            ≡ signal
                (feed ops max_pages max_positions target
                  (take k (success ∷ invalidate_old_pages ∷ []))
                  (read (entries (r ∷ rs))))
                w
      behind n k w h =
          ap (λ xs. signal (read xs) w)
            (take-append_right n k (entries (r ∷ rs)) (success ∷ invalidate_old_pages ∷ [])
              (omega (arith, length-map (entry_of ops max_pages max_positions target) rs)))
          ∙ ap (λ s. signal s w) (feed-append (entries (r ∷ rs)) _ emptied)

      cut_success :
          (n : ℕ) (w : W)
          → length (r ∷ rs) ≤ max_pages
          → n ≡ length (r ∷ rs) + 1
          → signal (read (take n (page_trace (r ∷ rs)))) w
            ≡ (recover, (emptied, completed (r ∷ rs) w))
      cut_success n w room h =
          behind n 1 w h
          ∙ signal_success r rs _ w
              (feed_from_clear ops max_pages max_positions target small r rs room)

      cut_late :
          (n k : ℕ) (w : W)
          → length (r ∷ rs) ≤ max_pages
          → n ≡ length (r ∷ rs) + suc (suc k)
          → signal (read (take n (page_trace (r ∷ rs)))) w ≡ (fine, (emptied, w))
      cut_late n k w room h =
          behind n (suc (suc k)) w h
          ∙ ap
              (λ ys.
                signal
                  (feed ops max_pages max_positions target (success ∷ invalidate_old_pages ∷ ys)
                    (read (entries (r ∷ rs))))
                  w)
              (take-nil k)
          ∙ signal_whole r rs _ w
              (feed_from_clear ops max_pages max_positions target small r rs room)

    -- For a nonempty operation that fits into the lists: when the log breaks off after `k` entries, the
    -- page state machine does nothing where no page is in the log, or where the old pages are
    -- already invalid; where the success entry is missing it makes the new pages that the log shows
    -- dirty and, if it keeps positions, puts the old addresses back; and else it makes the old pages
    -- dirty. Its lists are empty afterwards.
    pub page_trace-crash_at :
        (r : Replacement) (rs : List Replacement) (k : ℕ) (w : W)
        → length (r ∷ rs) ≤ max_pages
        → signal (read (take k (page_trace (r ∷ rs)))) w ≡ outcome k r rs w
    page_trace-crash_at r rs zero w room = nothing_read w ∙ ground arith
    page_trace-crash_at r rs (suc j) w room = elim (dec_le j (length rs)) [
      | yes h ↦ cut_early r rs j w room h ∙ ground arith
      | no h ↦ elim (dec_le j (suc (length rs))) [
        | yes h2 ↦ cut_success r rs (suc j) w room (omega arith) ∙ ground arith
        | no h2 ↦
            cut_late r rs (suc j) (j - suc (suc (length rs))) w room (omega arith) ∙ ground arith
      ]
    ]
