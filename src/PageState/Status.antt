-- ===== src/PageState/Status.antt =====
-- What a restart does to the page states that the summary cache shows.
use paffs.Prelude.{
  ℕ, zero, suc, ◌+◌, ◌≤◌, ◌<◌, ◌≡◌, ◌≢◌, ◌⊎◌, refl, ap, ◌∙◌, Bool, false, List, [], ◌∷◌, ◌==◌, ◌||◌,
  inl, inr, leb, if◌then◌else◌, length, map, take, All, arith,
}
use paffs.Types.{SummaryEntry, dirty}
use paffs.Journal.{Topic, Entry}
use paffs.PageState.{PageOps, signal_end_of_log, clear}
use paffs.PageState.Holds.{Replacement, dirty_all}
use paffs.PageState.Recovery.{feed}
use paffs.PageState.Crash.{page_trace, page_trace-crash_at, reverted, completed}

-- The states of pages: an entry in the journal leaves them alone, and on the pages of
-- `IsSettable`, `setPageStatus` changes the state of its page and of no other.
pub record StatusLaws {W : Type 0} (ops : PageOps W) : Type 1 where
  pub IsSettable : ℕ → Type 0
  pub status : W → ℕ → SummaryEntry
  pub status-add_event : (x : Entry) (w : W) (a : ℕ) → status (ops.add_event x w) a ≡ status w a
  pub status-set_page_status :
      (b : ℕ) (st : SummaryEntry) (w : W) (a : ℕ)
      → IsSettable b
      → status (ops.set_page_status b st w).1 a ≡ (if b == a then st else status w a)

abbrev pub contains : ℕ → List ℕ → Bool
contains a [] = false
contains a (b ∷ bs) = (b == a) || contains a bs

module _ {W : Type 0} (ops : PageOps W) (laws : StatusLaws ops) (max_pages : ℕ) (target : Topic)
    (small : max_pages < 65536) where
  -- 0 stands for no page.
  abbrev pub IsPage : ℕ → Type 0
  IsPage a = (a ≡ 0) ⊎ laws.IsSettable a

  dirty_all-status :
      (pages : List ℕ) (w : W) (a : ℕ)
      → a ≢ 0
      → All IsPage pages
      → laws.status (dirty_all ops max_pages 0 target pages w) a
        ≡ (if contains a pages then dirty else laws.status w a)
  unfolding dirty_all
  dirty_all-status [] w a ha h = refl
  dirty_all-status (b ∷ pages) w a ha h = elim h.0 [
    | inl z ↦ rw z (dirty_all-status pages w a ha h.1 ∙ ground arith)
    | inr settable ↦ ground (
      arith,
      dirty_all-status pages w a ha h.1,
      dirty_all-status pages (ops.set_page_status b dirty w).1 a ha h.1,
      laws.status-set_page_status b dirty w a settable,
    )
  ]

  All-take :
      (rs : List Replacement) (k : ℕ)
      → All IsPage (map Replacement.neu rs)
      → All IsPage (map Replacement.neu (take k rs))
  All-take rs zero h = tt
  All-take [] (suc k) h = tt
  All-take (r ∷ rs) (suc k) h = (h.0, All-take rs k h.1)

  module _ (w : W) (a : ℕ) (ha : a ≢ 0) where
    reverted-status :
        (inode : ℕ) (rs : List Replacement)
        → 0 < max_pages
        → All IsPage (map Replacement.neu rs)
        → laws.status (reverted ops max_pages 0 target inode rs w) a
          ≡ (if contains a (map Replacement.neu rs) then dirty else laws.status w a)
    reverted-status inode rs some_room news =
        let no_position : (max_pages == 0) ≡ false = ground arith in
        laws.status-add_event _ _ a
        ∙ rw no_position (dirty_all-status (map Replacement.neu rs) w a ha news)

    completed-status :
        (rs : List Replacement)
        → All IsPage (map Replacement.old rs)
        → laws.status (completed ops max_pages 0 target rs w) a
          ≡ (if contains a (map Replacement.old rs) then dirty else laws.status w a)
    completed-status rs olds =
        laws.status-add_event _ _ a ∙ dirty_all-status (map Replacement.old rs) w a ha olds

  -- For a machine without positions, a nonempty operation that fits into the lists, and pages that
  -- `setPageStatus` accepts: when the log breaks off after `k` entries, the restart makes dirty
  -- exactly the new pages that the log shows, or, behind the success entry, exactly the old
  -- pages, or, behind the entry that invalidates them, none; every other page keeps its state.
  pub restart-status :
      (r : Replacement) (rs : List Replacement) (k : ℕ) (w : W) (a : ℕ)
      → length (r ∷ rs) ≤ max_pages
      → a ≢ 0
      → All IsPage (map Replacement.neu (r ∷ rs))
      → All IsPage (map Replacement.old (r ∷ rs))
      → laws.status
          (signal_end_of_log ops max_pages 0 target
            (feed ops max_pages 0 target
              (take k (page_trace ops max_pages 0 target (r ∷ rs)))
              (clear ops max_pages 0 target))
            w).1.1
          a
        ≡ (if k == 0
            then laws.status w a
            else if leb k (length (r ∷ rs))
            then (if contains a (map Replacement.neu (take k (r ∷ rs)))
                then dirty
                else laws.status w a)
            else if k == length (r ∷ rs) + 1
            then (if contains a (map Replacement.old (r ∷ rs)) then dirty else laws.status w a)
            else laws.status w a)
  restart-status r rs k w a room ha news olds =
      ap (λ v. laws.status v.1.1 a) (page_trace-crash_at ops max_pages 0 target small r rs k w room)
      ∙ ground (
        arith,
        reverted-status w a ha r.inode (take k (r ∷ rs)) (omega arith) (All-take (r ∷ rs) k news),
        completed-status w a ha (r ∷ rs) olds,
      )
