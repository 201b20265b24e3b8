-- ===== src/Journal/Log.antt =====
-- The journal as a log: what `addEvent` appends, given room in the persistence.
use paffs.Prelude.{ℕ, suc, ◌+◌, ◌≤◌, ◌<◌, ◌≡◌, ◌⊎◌, true, false, List, [], ◌∷◌, ◌++◌, ◌==◌, arith}
use paffs.Types.{ok, low_mem}
use paffs.BitList.{get_bit}
use paffs.BitList.Laws.{IsBitList, set_bit-IsBitList, get_bit-set_bit}
use paffs.Journal.{
  Topic, topic_no, number_of_topics, target_topic, is_checkpoint, Entry, checkpoint, PersistenceOps,
  Journal, add_event,
}

-- What the journal relies on: while there is room an append succeeds, with or without the warning
-- that room is low, adds its entry at the end, and uses up one place.
pub record PersistenceLaws {P : Type 0} (ops : PersistenceOps P) : Type 0 where
  pub entries : P → List Entry
  pub room : P → ℕ
  pub append_ok :
      (x : Entry) (p : P)
      → 0 < room p
      → ((ops.append_entry x p).0 ≡ ok) ⊎ ((ops.append_entry x p).0 ≡ low_mem)
  pub append_entries :
      (x : Entry) (p : P) → 0 < room p → entries (ops.append_entry x p).1 ≡ entries p ++ (x ∷ [])
  pub append_room : (x : Entry) (p : P) → room p ≤ room (ops.append_entry x p).1 + 1

topic_no-lt : (t : Topic) → topic_no t < 11
topic_no-lt t = ground arith

module _ {P : Type 0} (ops : PersistenceOps P) (laws : PersistenceLaws ops) (mram_size : ℕ) where
  -- The journal is enabled, holds `shown`, and has room for `k` entries more.
  pub record Ready (shown : List Entry) (k : ℕ) (j : Journal P) : Type 0 where
    pub enabled : j.disabled ≡ false
    pub has_mram : (mram_size == 0) ≡ false
    pub roomy : k ≤ laws.room j.persistence
    pub bits : IsBitList number_of_topics j.uncheckpointed
    pub holds : laws.entries j.persistence ≡ shown

  -- The topic `t` also has changes since its last checkpoint.
  pub record Logged (t : Topic) (shown : List Entry) (k : ℕ) (j : Journal P) : Type 0 where
    pub ready : Ready shown k j
    pub open ready use *
    pub marked : get_bit number_of_topics (topic_no t) j.uncheckpointed ≡ true

  -- The first entry of an operation marks its topic.
  pub add_event-Ready :
      (x : Entry) (j : Journal P) (shown : List Entry) (k : ℕ)
      → is_checkpoint x ≡ false
      → Ready shown (suc k) j
      → Logged (target_topic x) (shown ++ (x ∷ [])) k (add_event ops mram_size x j).1
  unfolding add_event
  add_event-Ready x j shown k h w = ground (
    arith,
    laws.append_ok x j.persistence,
    laws.append_entries x j.persistence,
    laws.append_room x j.persistence,
    topic_no-lt (target_topic x),
    set_bit-IsBitList number_of_topics (topic_no (target_topic x)) j.uncheckpointed w.bits,
    get_bit-set_bit number_of_topics (topic_no (target_topic x)) j.uncheckpointed w.bits
        (topic_no (target_topic x)),
  )

  -- An entry that is no checkpoint goes to the end of the log.
  pub add_event-Logged :
      (t : Topic) (x : Entry) (j : Journal P) (shown : List Entry) (k : ℕ)
      → is_checkpoint x ≡ false
      → Logged t shown (suc k) j
      → Logged t (shown ++ (x ∷ [])) k (add_event ops mram_size x j).1
  unfolding add_event
  add_event-Logged t x j shown k h w = ground (
    arith,
    laws.append_ok x j.persistence,
    laws.append_entries x j.persistence,
    laws.append_room x j.persistence,
    topic_no-lt (target_topic x),
    set_bit-IsBitList number_of_topics (topic_no (target_topic x)) j.uncheckpointed w.bits,
    get_bit-set_bit number_of_topics (topic_no (target_topic x)) j.uncheckpointed w.bits
        (topic_no t),
  )

  -- A checkpoint of a topic with changes goes to the end of the log too.
  pub add_event_checkpoint :
      (t : Topic) (j : Journal P) (shown : List Entry) (k : ℕ)
      → Logged t shown (suc k) j
      → laws.entries (add_event ops mram_size (checkpoint t) j).1.persistence
        ≡ shown ++ (checkpoint t ∷ [])
  unfolding add_event
  add_event_checkpoint t j shown k w = ground (
    arith,
    laws.append_ok (checkpoint t) j.persistence,
    laws.append_entries (checkpoint t) j.persistence,
  )

  -- A second checkpoint with no change of the topic in between writes nothing.
  pub add_event_checkpoint_twice :
      (t : Topic) (j : Journal P)
      → get_bit number_of_topics (topic_no t) j.uncheckpointed ≡ false
      → (add_event ops mram_size (checkpoint t) j).1 ≡ j
  unfolding add_event
  add_event_checkpoint_twice t j h = ground arith
