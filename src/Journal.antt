-- ===== src/Journal.antt =====
-- src/journalEntry.hpp: what the parts of the file system write into the journal, and
-- src/journal.cpp, `Journal::addEvent`. The persistence behind it is an interface.
pub mod Log
use paffs.Prelude.{ℕ, Bool, true, false, ◌||◌, ◌==◌, if◌then◌else◌, List}
use paffs.Types.{Result, ok, no_space, low_mem, AreaType, AreaStatus, SummaryEntry, Inode}
use paffs.BitList.{set_bit, reset_bit, get_bit}

pub data Topic : Type 0 where
  invalid checkpoint_topic pagestate_topic superblock_topic area_mgmt_topic garbage_topic
        summary_topic tree_topic data_io_topic pac_topic device_topic :
      Topic

abbrev pub topic_no : Topic → ℕ
topic_no invalid = 0
topic_no checkpoint_topic = 1
topic_no pagestate_topic = 2
topic_no superblock_topic = 3
topic_no area_mgmt_topic = 4
topic_no garbage_topic = 5
topic_no summary_topic = 6
topic_no tree_topic = 7
topic_no data_io_topic = 8
topic_no pac_topic = 9
topic_no device_topic = 10

abbrev pub number_of_topics : ℕ
number_of_topics = 11

pub data PageEvent : Type 0 where
  replace_page : ℕ → ℕ → PageEvent  -- neu, old
  replace_page_pos : ℕ → ℕ → ℕ → ℕ → PageEvent  -- neu, old, inode, position
  success : PageEvent
  invalidate_old_pages : PageEvent

pub data SuperEvent : Type 0 where
  rootnode : ℕ → SuperEvent
  map_type : ℕ → AreaType → SuperEvent
  map_status : ℕ → AreaStatus → SuperEvent
  map_erasecount : ℕ → SuperEvent
  map_position : ℕ → ℕ → SuperEvent
  map_swap : ℕ → ℕ → SuperEvent
  active_area : AreaType → ℕ → SuperEvent
  used_areas : ℕ → SuperEvent

pub data AreaEvent : Type 0 where
  init_area_as : ℕ → AreaType → AreaEvent
  close_area : ℕ → AreaEvent
  retire_area : ℕ → AreaEvent
  delete_area_contents : ℕ → ℕ → AreaEvent  -- the area and the one it is swapped with
  delete_area : ℕ → AreaEvent

pub data SummaryEvent : Type 0 where
  commit : ℕ → SummaryEvent
  remove : ℕ → SummaryEvent
  reset : ℕ → SummaryEvent
  set_status : ℕ → ℕ → SummaryEntry → SummaryEvent
  set_status_block : ℕ → List ℕ → SummaryEvent

pub data TreeEvent : Type 0 where
  insert : Inode → TreeEvent
  update : Inode → TreeEvent
  remove_inode : ℕ → TreeEvent

pub data DeviceEvent : Type 0 where
  mk_obj_inode : ℕ → DeviceEvent
  insert_into_dir : ℕ → DeviceEvent
  remove_obj : ℕ → ℕ → DeviceEvent

pub data Entry : Type 0 where
  checkpoint : Topic → Entry
  pagestate : Topic → PageEvent → Entry
  superblock_entry : SuperEvent → Entry
  area_mgmt : AreaEvent → Entry
  move_valid_data : ℕ → Entry
  summary_cache : SummaryEvent → Entry
  tree : TreeEvent → Entry
  new_inode_size : ℕ → ℕ → Entry
  set_address : ℕ → ℕ → ℕ → Entry
  device : DeviceEvent → Entry

-- The topic whose changes an entry adds to; that of a page state is its target.
abbrev pub target_topic : Entry → Topic
target_topic (checkpoint t) = t
target_topic (pagestate t _) = t
target_topic (superblock_entry _) = superblock_topic
target_topic (area_mgmt _) = area_mgmt_topic
target_topic (move_valid_data _) = garbage_topic
target_topic (summary_cache _) = summary_topic
target_topic (tree _) = tree_topic
target_topic (new_inode_size _ _) = data_io_topic
target_topic (set_address _ _ _) = pac_topic
target_topic (device _) = device_topic

abbrev pub is_checkpoint : Entry → Bool
is_checkpoint (checkpoint _) = true
is_checkpoint _ = false

-- `JournalPersistence`, as far as `addEvent` uses it.
pub record PersistenceOps (P : Type 0) : Type 0 where
  pub append_entry : Entry → P → Result × P
  pub is_low_mem : P → Bool

pub record Journal (P : Type 0) : Type 0 where
  pub disabled : Bool
  pub uncheckpointed : List ℕ  -- a BitList<numberOfTopics>
  pub persistence : P

module _ {P : Type 0} (ops : PersistenceOps P) (mram_size : ℕ) where
  -- What `addEvent` does with the result of the append.
  abbrev appended : Entry → Journal P → Result × P → Result × Journal P
  appended e j (r, p) =
      let t : ℕ = topic_no (target_topic e) in
      let bits : List ℕ =
        if is_checkpoint e
        then reset_bit number_of_topics t j.uncheckpointed
        else set_bit number_of_topics t j.uncheckpointed in
      elim r [
        | ok ↦ (ok, record j { uncheckpointed = bits; persistence = p })
        | low_mem ↦ (low_mem, record j { uncheckpointed = bits; persistence = p })
        | other ↦ (other, record j { persistence = p })
      ]

  unfoldable pub add_event : Entry → Journal P → Result × Journal P
  add_event e j =
      if j.disabled || mram_size == 0
      then (ok, j)
      else (if is_checkpoint e
          then (if get_bit number_of_topics (topic_no (target_topic e)) j.uncheckpointed
              then appended e j (ops.append_entry e j.persistence)
              else (if ops.is_low_mem j.persistence then low_mem else ok, j))
          else appended e j (ops.append_entry e j.persistence))
