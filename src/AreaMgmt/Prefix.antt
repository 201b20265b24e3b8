-- ===== src/AreaMgmt/Prefix.antt =====
-- A log that breaks off inside an operation of area management: what the scan remembers of the
-- entries that are left, and the rule by which an operation is shown to survive at every entry.
use paffs.Prelude.{
  ℕ, zero, suc, ◌<◌, ◌≡◌, refl, ap, ◌∙◌, true, List, [], ◌∷◌, ◌++◌, length, take, All, arith,
  take-append_left,
}
use native.Mathlib.Decide.{dec_le}
use paffs.Journal.{
  Entry, checkpoint, superblock_entry, area_mgmt, summary_cache, AreaEvent, area_mgmt_topic,
}
use paffs.Superblock.{Superblock}
use paffs.Device.{Env, Device}
use paffs.AreaMgmt.Replay.{
  ExternOp, nothing, Scan, extern_of, is_foreign, reset_state, process_entry, is_interested_in,
  apply_entry, scan_from, replay, replay_entry, signal_end_of_log,
}

-- The scan in the middle of an operation.
abbrev pub within : AreaEvent → ExternOp → Scan
within op x = record { unfinished = true; last_op = op; last_extern = x }

abbrev pub externs : ExternOp → List Entry → ExternOp
externs x [] = x
externs x (y ∷ ys) = externs (extern_of y x) ys

-- Entries of the superblock and of the summary cache.
abbrev pub IsForeign : List Entry → Type 0
IsForeign = All (λ y. is_foreign y ≡ true)

apply_foreign :
    (op : AreaEvent) (x : ExternOp) (y : Entry) (ys : List Entry)
    → is_foreign y ≡ true
    → scan_from (within op x) (y ∷ ys) ≡ scan_from (within op (extern_of y x)) ys
unfolding scan_from apply_entry process_entry is_interested_in
apply_foreign op x (superblock_entry _) ys h = refl
apply_foreign op x (summary_cache _) ys h = refl
apply_foreign op x _ ys h = cc

scan-within :
    (op : AreaEvent) (x : ExternOp) (ys : List Entry)
    → IsForeign ys
    → scan_from (within op x) ys ≡ within op (externs x ys)
unfolding scan_from
scan-within op x [] h = refl
scan-within op x (y ∷ ys) h = apply_foreign op x y ys h.0 ∙ scan-within op (extern_of y x) ys h.1

scan-begun :
    (op : AreaEvent) (ys : List Entry)
    → scan_from reset_state (area_mgmt op ∷ ys) ≡ scan_from (within op nothing) ys
unfolding scan_from reset_state apply_entry process_entry
scan-begun op ys = refl

take-IsForeign : (k : ℕ) (ys : List Entry) → IsForeign ys → IsForeign (take k ys)
take-IsForeign zero ys h = tt
take-IsForeign (suc k) [] h = tt
take-IsForeign (suc k) (y ∷ ys) h = (h.0, take-IsForeign k ys h.1)

take-append_all :
    (k : ℕ) (ys : List Entry) (z : Entry) → length ys < k → take k (ys ++ (z ∷ [])) ≡ ys ++ (z ∷ [])
take-append_all zero ys z h = absurd (omega arith)
take-append_all (suc zero) [] z h = refl
take-append_all (suc (suc k)) [] z h = refl
take-append_all (suc k) (y ∷ ys) z h = ap (◌∷◌ y) (take-append_all k ys z (omega arith))

scan_checkpoint :
    (ys : List Entry) (s : Scan)
    → scan_from s (ys ++ (checkpoint area_mgmt_topic ∷ [])) ≡ reset_state
unfolding scan_from
scan_checkpoint [] s = refl
scan_checkpoint (y ∷ ys) s = scan_checkpoint ys _

module _ {F C P : Type 0} (e : Env F C P) where
  replay_checkpoint :
      (ys : List Entry) (s : Superblock)
      → replay e (ys ++ (checkpoint area_mgmt_topic ∷ [])) s ≡ replay e ys s
  unfolding replay
  replay_checkpoint [] s = refl
  replay_checkpoint (y ∷ ys) s = replay_checkpoint ys (replay_entry e y s)

  -- The area map that a device has after a restart, when the log of an operation broke off after
  -- its first `k` entries, and area management has finished what they began.
  abbrev pub recovered : Device F C P → Superblock → ℕ → List Entry → Superblock
  recovered d s k trace =
      (signal_end_of_log e (scan_from reset_state (take k trace))
        (record d { sb = replay e (take k trace) s })).sb

  pub recovered_none :
      (d : Device F C P) (s : Superblock) (trace : List Entry) → recovered d s 0 trace ≡ s
  unfolding replay scan_from reset_state signal_end_of_log
  recovered_none d s trace = refl

  module _ (rest : ExternOp → Superblock → Superblock) (final : Superblock) where
    -- After each of the entries the rest of the operation leads to `final`.
    abbrev pub Finishes : ExternOp → Superblock → List Entry → Type 0
    Finishes x s [] = rest x s ≡ final
    Finishes x s (y ∷ ys) = (rest x s ≡ final) × Finishes (extern_of y x) (replay_entry e y s) ys

    Finishes-take :
        (k : ℕ) (x : ExternOp) (s : Superblock) (ys : List Entry)
        → Finishes x s ys
        → rest (externs x (take k ys)) (replay e (take k ys) s) ≡ final
    unfolding replay
    Finishes-take zero x s [] h = h
    Finishes-take zero x s (y ∷ ys) h = h.0
    Finishes-take (suc k) x s [] h = h
    Finishes-take (suc k) x s (y ∷ ys) h =
        Finishes-take k (extern_of y x) (replay_entry e y s) ys h.1

    -- An operation whose log is `op`, `body` and a checkpoint ends in `final` wherever behind
    -- `op` the log breaks off.
    pub recovered_begun :
        (op : AreaEvent) (body : List Entry) (s : Superblock) (d : Device F C P) (k : ℕ)
        → ((x : ExternOp) (d : Device F C P)
            → (signal_end_of_log e (within op x) d).sb ≡ rest x d.sb)
        → IsForeign body
        → Finishes nothing s body
        → replay e body s ≡ final
        → recovered d s (suc k) (area_mgmt op ∷ body ++ (checkpoint area_mgmt_topic ∷ [])) ≡ final
    unfolding replay signal_end_of_log reset_state scan_from
    recovered_begun op body s d k completes foreign ends whole = elim (dec_le k (length body)) [
      | yes h ↦
          rw
            (
              take-append_left k body (checkpoint area_mgmt_topic ∷ []) h,
              scan-begun op (take k body),
              scan-within op nothing (take k body) (take-IsForeign k body foreign),
            )
            (completes _ _ ∙ Finishes-take k nothing s body ends)
      | no h ↦
          rw
            (
              take-append_all k body (checkpoint area_mgmt_topic) (omega arith),
              scan-begun op _,
              scan_checkpoint body (within op nothing),
            )
            (replay_checkpoint body s ∙ whole)
    ]
