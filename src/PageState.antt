-- ===== src/PageState.antt =====
-- src/journalPageStatemachine.hpp and src/journalPageStatemachine_impl.hpp, `PageStateMachine`:
-- which pages an operation writes anew, and what becomes of them and of the old ones after a
-- power loss. The journal, the summary cache and the page address cache are an interface.
pub mod Holds
pub mod Recovery
pub mod Crash
pub mod Live
pub mod Status
use paffs.Prelude.{
  ℕ, zero, suc, ◌+◌, ◌-◌, Bool, true, false, ◌||◌, List, ◌==◌, if◌then◌else◌, get_or, set,
  replicate, u16,
}
use paffs.Types.{Result, ok, bug, low_mem, SummaryEntry, used, dirty}
use paffs.Journal.{
  Topic, Entry, pagestate, PageEvent, replace_page, replace_page_pos, success, invalidate_old_pages,
}

pub data JournalState : Type 0 where
  fine invalid recover : JournalState

-- The three parts that the machine changes; `W` is the state of all of them.
pub record PageOps (W : Type 0) : Type 0 where
  pub add_event : Entry → W → W
  pub set_page_status : ℕ → SummaryEntry → W → Result × W
  pub set_journalling_inode : ℕ → W → W
  pub set_page : ℕ → ℕ → W → W
  pub commit : W → W

pub record PageState : Type 0 where
  pub new_pages : List ℕ
  pub old_pages : List ℕ
  pub positions : List ℕ
  pub high_water : ℕ  -- pageListHWM, 16 bits
  pub current_inode : ℕ
  pub state : JournalState

-- `target` is the topic whose pages the machine keeps.
module _ {W : Type 0} (ops : PageOps W) (max_pages max_positions : ℕ) (target : Topic) where
  abbrev pub with_position : Bool
  with_position = max_pages == max_positions

  unfoldable pub clear : PageState
  clear = record {
    new_pages = replicate max_pages 0;
    old_pages = replicate max_pages 0;
    positions = replicate max_positions 0;
    high_water = 0;
    current_inode = 0;
    state = fine;
  }

  abbrev pub min_space_left : PageState → ℕ
  min_space_left s = max_pages - s.high_water

  abbrev pub event_of : ℕ → ℕ → ℕ → ℕ → PageEvent
  event_of neu old inode pos =
      if with_position then replace_page_pos neu old inode pos else replace_page neu old

  -- The stores into the lists that both kinds of replacement share.
  abbrev pub store_pages : ℕ → ℕ → PageState → PageState
  store_pages neu old s = record s {
    new_pages = set s.new_pages s.high_water neu;
    old_pages = set s.old_pages s.high_water old;
    high_water = u16 (s.high_water + 1);
  }

  abbrev pub store_position : ℕ → PageState → PageState
  store_position pos s = record s { positions = set s.positions s.high_water pos }

  -- `replacePage` with a position; `neu` is 0 where a page is only deleted.
  unfoldable pub replace : ℕ → ℕ → ℕ → ℕ → PageState → W → Result × (PageState × W)
  replace neu old inode pos s w =
      if s.high_water == max_pages
      then (low_mem, (s, w))
      else let s1 : PageState = if with_position then store_position pos s else s in
        let w1 : W = ops.add_event (pagestate target (event_of neu old inode pos)) w in
        let (r, w2) = if neu == 0 then (ok, w1) else ops.set_page_status neu used w1 in
        (r, (store_pages neu old s1, w2))

  unfoldable pub replace_plain : ℕ → ℕ → PageState → W → Result × (PageState × W)
  replace_plain neu old s w = if with_position then (bug, (s, w)) else replace neu old 0 0 s w

  -- The loops that mark the pages of a list: from index `i`, in `rounds` rounds.
  unfoldable pub dirty_from : ℕ → ℕ → List ℕ → W → W
  dirty_from zero i xs w = w
  dirty_from (suc rounds) i xs w =
      let w1 : W =
        if get_or xs i 0 == 0 then w else (ops.set_page_status (get_or xs i 0) dirty w).1 in
      dirty_from rounds (i + 1) xs w1

  unfoldable pub any_from : ℕ → ℕ → List ℕ → Bool
  any_from zero i xs = false
  any_from (suc rounds) i xs =
      let rest : Bool = any_from rounds (i + 1) xs in if get_or xs i 0 == 0 then rest else true

  abbrev pub log_invalidated : W → W
  log_invalidated w = ops.add_event (pagestate target invalidate_old_pages) w

  -- `invalidateOldPages`; a failing `setPageStatus` is passed over.
  unfoldable pub invalidate : PageState → W → Result × (PageState × W)
  invalidate s w =
      let w1 : W = dirty_from s.high_water 0 s.old_pages w in
      let any : Bool = any_from s.high_water 0 s.old_pages in
      (ok, (clear, if any then log_invalidated w1 else w1))

  -- `processEntry`, by its state.
  abbrev pub process_fine : PageEvent → PageState → Result × PageState
  process_fine (replace_page_pos neu old inode pos) s = (
    ok,
    record (store_pages neu old (store_position pos s)) { current_inode = inode; state = invalid },
  )
  process_fine (replace_page neu old) s = (ok, record (store_pages neu old s) { state = invalid })
  process_fine success s = (ok, s)
  process_fine invalidate_old_pages s = (bug, s)

  -- The inode is that of the first entry.
  abbrev pub process_invalid : PageEvent → PageState → Result × PageState
  process_invalid (replace_page_pos neu old inode pos) s =
      (ok, store_pages neu old (store_position pos s))
  process_invalid (replace_page neu old) s = (ok, store_pages neu old s)
  process_invalid success s = (ok, record s { state = recover })
  process_invalid invalidate_old_pages s = (bug, s)

  abbrev pub process_recover : PageEvent → PageState → Result × PageState
  process_recover invalidate_old_pages s = (ok, clear)
  process_recover _ s = (bug, s)

  unfoldable pub process_entry : PageEvent → PageState → Result × PageState
  process_entry x s = elim s.state [
    | fine ↦ process_fine x s
    | invalid ↦ process_invalid x s
    | recover ↦ process_recover x s
  ]

  -- The loop that puts the old addresses back into the file.
  unfoldable pub restore_from : ℕ → ℕ → List ℕ → List ℕ → W → W
  restore_from zero i olds positions w = w
  restore_from (suc rounds) i olds positions w =
      restore_from rounds (i + 1) olds positions
        (ops.set_page (get_or positions i 0) (get_or olds i 0) w)

  abbrev pub revert_pages : PageState → W → W
  revert_pages s w = ops.commit (
      restore_from s.high_water 0 s.old_pages s.positions
        (ops.set_journalling_inode s.current_inode w))

  unfoldable pub signal_end_of_log : PageState → W → JournalState × (PageState × W)
  signal_end_of_log s w = elim s.state [
    | fine ↦ (fine, (clear, w))
    | invalid ↦
        let w1 : W = dirty_from s.high_water 0 s.new_pages w in
        (invalid, (clear, log_invalidated (if with_position then revert_pages s w1 else w1)))
    | recover ↦ (recover, (clear, log_invalidated (dirty_from s.high_water 0 s.old_pages w)))
  ]
