-- ===== src/Tests/Pages.antt =====
-- The page state machine on a sample journal, summary cache and file.
use paffs.Prelude.{
  ℕ, ◌<◌, ◌≡◌, refl, inr, List, [], ◌∷◌, ◌++◌, ◌==◌, if◌then◌else◌, set, take, arith,
}
use paffs.Types.{ok, low_mem, SummaryEntry, free, dirty}
use paffs.Journal.{Entry, tree_topic, data_io_topic}
use paffs.PageState.{PageOps, invalid, replace, clear, invalidate, signal_end_of_log}
use paffs.PageState.Holds.{Replacement, any_page}
use paffs.PageState.Recovery.{feed, run, announce}
use paffs.PageState.Crash.{page_trace, page_trace-crash_at, reverted, completed}
use paffs.PageState.Live.{run-invalidate, replace-full}
use paffs.PageState.Status.{StatusLaws, restart-status}

record World : Type 0 where
  written : List Entry
  status : ℕ → SummaryEntry
  inode : ℕ
  addresses : List ℕ

abbrev world_ops : PageOps World
world_ops = record {
  add_event = λ x w. record w { written = w.written ++ (x ∷ []) };
  set_page_status = λ a st w. (ok, record w { status = λ b. if a == b then st else w.status b });
  set_journalling_inode = λ n w. record w { inode = n };
  set_page = λ p a w. record w { addresses = set w.addresses p a };
  commit = λ w. w;
}

world_laws : StatusLaws world_ops
world_laws = record {
  IsSettable = λ a. 0 < a;
  status = World.status;
  status-add_event = λ x w a. refl;
  status-set_page_status = λ b st w a h. refl;
}

abbrev world : World
world = record { written = []; status = λ a. free; inode = 0; addresses = 0 ∷ 0 ∷ 0 ∷ [] }

-- The first page overwrites another, the second is new.
abbrev first : Replacement
first = record { neu = 100; old = 50; inode = 7; pos = 1 }

abbrev second : Replacement
second = record { neu = 101; old = 0; inode = 7; pos = 2 }

-- One of two pages was logged.
page_trace-crash_at_example :
    signal_end_of_log world_ops 4 4 data_io_topic
      (feed world_ops 4 4 data_io_topic
        (take 1 (page_trace world_ops 4 4 data_io_topic (first ∷ second ∷ [])))
        (clear world_ops 4 4 data_io_topic))
      world
    ≡ (
      invalid,
      (
        clear world_ops 4 4 data_io_topic,
        reverted world_ops 4 4 data_io_topic 7 (first ∷ []) world,
      ),
    )
page_trace-crash_at_example =
    page_trace-crash_at world_ops 4 4 data_io_topic (omega arith) first (second ∷ []) 1 world
      (omega arith)

run-invalidate_example :
    ((run world_ops 4 0 tree_topic (first ∷ second ∷ []) (clear world_ops 4 0 tree_topic, world)).1
      ≡ announce world_ops 4 0 tree_topic (first ∷ second ∷ []) world)
    × (invalidate world_ops 4 0 tree_topic
          (run world_ops 4 0 tree_topic
            (first ∷ second ∷ [])
            (clear world_ops 4 0 tree_topic, world)).0
          world
        ≡ (
          ok,
          (
            clear world_ops 4 0 tree_topic,
            completed world_ops 4 0 tree_topic (first ∷ second ∷ []) world,
          ),
        ))
unfolding any_page
run-invalidate_example =
    run-invalidate world_ops 4 0 tree_topic (omega arith) (first ∷ second ∷ []) world world
      (omega arith)

replace-full_example :
    replace world_ops 2 0 tree_topic 102 0 0 0
      (run world_ops 2 0 tree_topic (first ∷ second ∷ []) (clear world_ops 2 0 tree_topic, world)).0
      (run world_ops 2 0 tree_topic (first ∷ second ∷ []) (clear world_ops 2 0 tree_topic, world)).1
    ≡ (
      low_mem,
      run world_ops 2 0 tree_topic (first ∷ second ∷ []) (clear world_ops 2 0 tree_topic, world),
    )
replace-full_example =
    replace-full world_ops 2 0 tree_topic (omega arith) (first ∷ second ∷ [])
      (record { neu = 102; old = 0; inode = 0; pos = 0 }) world (omega arith)

-- The success entry is the last one: the old page becomes dirty.
restart-status_example :
    (signal_end_of_log world_ops 4 0 tree_topic
        (feed world_ops 4 0 tree_topic
          (take 2 (page_trace world_ops 4 0 tree_topic (first ∷ [])))
          (clear world_ops 4 0 tree_topic))
        world).1.1.status
      50
    ≡ dirty
unfolding world_laws
restart-status_example =
    restart-status world_ops world_laws 4 tree_topic (omega arith) first [] 2 world 50 (omega arith)
      (omega arith) (inr (omega arith), tt) (inr (omega arith), tt)
