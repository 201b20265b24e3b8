-- ===== src/PageState/Recovery.antt =====
-- What a power loss leaves of an operation that replaces pages: the page state machine reads the
-- entries of its calls back, and reverts or completes them.
use paffs.Prelude.{
  ℕ, suc, ◌+◌, ◌≤◌, ◌<◌, ◌≡◌, refl, subst, List, [], ◌∷◌, ◌++◌, append-nil, append_assoc, ◌==◌,
  if◌then◌else◌, length, map, arith, length-append,
}
use paffs.Types.{ok, used}
use paffs.Journal.{Topic, pagestate, PageEvent}
use paffs.PageState.{
  PageOps, PageState, fine, invalid, clear, with_position, event_of, replace, process_entry,
}
use paffs.PageState.Holds.{Replacement, Holds, stored, stored-Holds, clear-Holds}

module _ {W : Type 0} (ops : PageOps W) (max_pages max_positions : ℕ) (target : Topic) where
  abbrev H : List Replacement → PageState → Type 0
  H = Holds max_pages max_positions

  pub entry_of : Replacement → PageEvent
  entry_of r = event_of ops max_pages max_positions target r.neu r.old r.inode r.pos

  -- The calls of `replacePage` of one operation.
  abbrev pub run : List Replacement → PageState × W → PageState × W
  run [] sw = sw
  run (r ∷ rs) (s, w) =
      run rs (replace ops max_pages max_positions target r.neu r.old r.inode r.pos s w).1

  -- The entries that a restart hands to the machine, in order; their results are not looked at.
  abbrev pub feed : List PageEvent → PageState → PageState
  feed [] s = s
  feed (x ∷ xs) s = feed xs (process_entry ops max_pages max_positions target x s).1

  -- What the calls do to the journal and the summary cache.
  abbrev pub announce : List Replacement → W → W
  announce [] w = w
  announce (r ∷ rs) w =
      let w1 : W = ops.add_event (pagestate target (entry_of r)) w in
      announce rs (if r.neu == 0 then w1 else (ops.set_page_status r.neu used w1).1)

  module _ (small : max_pages < 65536) where
    pub replace-stored :
        (r : Replacement) (done : List Replacement) (s : PageState) (w : W)
        → length done < max_pages
        → H done s
        → (replace ops max_pages max_positions target r.neu r.old r.inode r.pos s w).1
          ≡ (stored ops max_pages max_positions target r s, announce (r ∷ []) w)
    unfolding replace entry_of
    replace-stored r done s w room h = ground (arith, h.count)

    pub run-Holds :
        (rs done : List Replacement) (s : PageState) (w : W)
        → length done + length rs ≤ max_pages
        → H done s
        → H (done ++ rs) (run rs (s, w)).0
    run-Holds [] done s w room h = rw append-nil h
    run-Holds (r ∷ rs) done s w room h =
        subst
          (λ l.
            H l
              (run rs
                (replace ops max_pages max_positions target r.neu r.old r.inode r.pos s w).1).0)
          (append_assoc done (r ∷ []) rs)
          (rw (replace-stored r done s w (omega arith) h) (
            run-Holds rs (done ++ (r ∷ [])) _ _ (omega (arith, length-append done (r ∷ [])))
              (stored-Holds ops max_pages max_positions target done r s small (omega arith) h)))

    process-stored :
        (r : Replacement) (s : PageState)
        → s.state ≡ invalid
        → process_entry ops max_pages max_positions target (entry_of r) s
          ≡ (ok, stored ops max_pages max_positions target r s)
    unfolding process_entry entry_of
    process-stored r s h = ground arith

    process_first :
        (r : Replacement) (s : PageState)
        → s.state ≡ fine
        → s.current_inode ≡ 0
        → process_entry ops max_pages max_positions target (entry_of r) s ≡ (
          ok,
          record (stored ops max_pages max_positions target r s) {
            state = invalid;
            current_inode = if with_position ops max_pages max_positions target then r.inode else 0;
          },
        )
    unfolding process_entry entry_of
    process_first r s h k = ground arith

    -- The machine has read the entries of `rs`, and nothing behind them.
    pub record Interrupted (rs : List Replacement) (inode : ℕ) (s : PageState) : Type 0 where
      pub shows : H rs s
      pub broken : s.state ≡ invalid
      pub same_inode : s.current_inode ≡ inode

    feed-Interrupted :
        (rs done : List Replacement) (inode : ℕ) (s : PageState)
        → length done + length rs ≤ max_pages
        → Interrupted done inode s
        → Interrupted (done ++ rs) inode (feed (map entry_of rs) s)
    feed-Interrupted [] done inode s room h = rw append-nil h
    feed-Interrupted (r ∷ rs) done inode s room h =
        subst (λ l. Interrupted l inode (feed (map entry_of (r ∷ rs)) s))
          (append_assoc done (r ∷ []) rs)
          (rw (feed, process-stored r s h.broken)
            (feed-Interrupted rs (done ++ (r ∷ [])) inode
              (stored ops max_pages max_positions target r s)
              (omega (arith, length-append done (r ∷ [])))
              (record {
                shows =
                    stored-Holds ops max_pages max_positions target done r s small (omega arith)
                      h.shows;
                broken = ground (arith, h.broken);
                same_inode = ground (arith, h.same_inode);
              })))

    abbrev pub empty_state : PageState
    empty_state = clear ops max_pages max_positions target

    abbrev pub inode_of : Replacement → ℕ
    inode_of r = if with_position ops max_pages max_positions target then r.inode else 0

    first-Interrupted :
        (r : Replacement)
        → 0 < max_pages
        → Interrupted
            (r ∷ [])
            (inode_of r)
            (process_entry ops max_pages max_positions target (entry_of r) empty_state).1
    unfolding clear
    first-Interrupted r room =
        let h : H (r ∷ []) (stored ops max_pages max_positions target r empty_state) =
          stored-Holds ops max_pages max_positions target [] r empty_state small room
            (clear-Holds ops max_pages max_positions target) in
        rw (process_first r empty_state refl refl) (record {
          shows = record {
            count = h.count;
            new_size = h.new_size;
            old_size = h.old_size;
            position_size = h.position_size;
            news = h.news;
            olds = h.olds;
            places = h.places;
          };
          broken = refl;
          same_inode = refl;
        })

    pub feed_from_clear :
        (r : Replacement) (rs : List Replacement)
        → suc (length rs) ≤ max_pages
        → Interrupted (r ∷ rs) (inode_of r) (feed (map entry_of (r ∷ rs)) empty_state)
    feed_from_clear r rs room =
        feed-Interrupted rs (r ∷ []) (inode_of r)
          (process_entry ops max_pages max_positions target (entry_of r) empty_state).1
          (omega arith) (first-Interrupted r (omega arith))
