-- ===== src/Mram/Stored.antt =====
-- The entries that lie in the memory, one behind the other.
use paffs.Prelude.{
  ℕ, zero, suc, Bool, true, ◌+◌, ◌*◌, ◌≤◌, ◌<◌, ◌≡◌, refl, sym, ap, subst, ◌∙◌, false, List, [],
  ◌∷◌, ◌++◌, append_assoc, append-nil, length, leb, ◌==◌, if◌then◌else◌, u32, le→ltb, arith,
}
use paffs.Types.{Result, ok, not_found, is_ok}
use paffs.Journal.{Entry, superblock_entry, map_position}
use paffs.Mram.{MramOps, Mram, size_of, rewind, append_entry, clear, read_next}

-- An entry that its own struct's size is named for. A position of an area is given the smaller size
-- of a type, and the end of it is not written.
abbrev pub is_whole : Entry → Bool
is_whole (superblock_entry (map_position _ _)) = false
is_whole _ = true

abbrev pub AllWhole : List Entry → Type 0
AllWhole [] = Unit {0}
AllWhole (x ∷ xs) = (is_whole x ≡ true) × AllWhole xs

AllWhole-snoc :
    (xs : List Entry) (x : Entry) → AllWhole xs → is_whole x ≡ true → AllWhole (xs ++ (x ∷ []))
AllWhole-snoc [] x all whole = (whole, tt)
AllWhole-snoc (y ∷ ys) x all whole = (all.0, AllWhole-snoc ys x all.1 whole)

-- What a memory does: it gives back the mark and the whole entries that were written, and a later
-- write behind an entry does not touch it.
pub record MramLaws {M : Type 0} (ops : MramOps M) : Type 0 where
  pub some_size : (x : Entry) → 0 < size_of ops 0 0 x
  pub size-le : (x : Entry) → size_of ops 0 0 x ≤ ops.max_size
  pub mark_written : (n : ℕ) (m : M) → n < 4294967296 → ops.read_mark (ops.write_mark n m) ≡ n
  pub entry_behind_mark :
      (o n : ℕ) (m : M) → 4 ≤ o → ops.read_entry o (ops.write_mark n m) ≡ ops.read_entry o m
  pub entry_written :
      (o : ℕ) (x : Entry) (m : M)
      → is_whole x ≡ true
      → ops.read_entry o (ops.write_entry o (size_of ops 0 0 x) x m) ≡ x
  pub entry_before :
      (o p n : ℕ) (x : Entry) (m : M)
      → is_whole (ops.read_entry o m) ≡ true
      → o + size_of ops 0 0 (ops.read_entry o m) ≤ p
      → ops.read_entry o (ops.write_entry p n x m) ≡ ops.read_entry o m

module _ {M : Type 0} (ops : MramOps M) (mram_size reserved : ℕ) where
  -- `addEvent` of the entries in turn.
  abbrev pub append_all : List Entry → Mram M → Mram M
  append_all [] s = s
  append_all (x ∷ xs) s = append_all xs (append_entry ops mram_size reserved x s).1

  -- The loop of `applyJournalEntries` over `readNextElem`, with the result that ends it.
  unfoldable pub read_from : ℕ → Mram M → List Entry × Result
  read_from zero s = ([], ok)
  read_from (suc fuel) s =
      let (r, (x, s1)) = read_next ops mram_size reserved s in
      let (xs, last) = read_from fuel s1 in if is_ok r then (x ∷ xs, last) else ([], r)

  -- From `o` to `e`.
  abbrev LaidOut : List Entry → ℕ → ℕ → M → Type 0
  LaidOut [] o e m = o ≡ e
  LaidOut (x ∷ xs) o e m =
      (ops.read_entry o m ≡ x) × LaidOut xs (o + size_of ops mram_size reserved x) e m

  LaidOut-le : (xs : List Entry) (o e : ℕ) (m : M) → LaidOut xs o e m → o ≤ e
  LaidOut-le [] o e m h = omega (arith, h)
  LaidOut-le (x ∷ xs) o e m h = omega (arith, LaidOut-le xs _ e m h.1)

  module _ (laws : MramLaws ops) where
    LaidOut-write :
        (xs : List Entry) (o e n : ℕ) (x : Entry) (m : M)
        → AllWhole xs
        → is_whole x ≡ true
        → 4 ≤ o
        → LaidOut xs o e m
        → LaidOut
            (xs ++ (x ∷ []))
            o
            (e + size_of ops mram_size reserved x)
            (ops.write_mark n (ops.write_entry e (size_of ops mram_size reserved x) x m))
    LaidOut-write [] o e n x m all whole low h = (
      laws.entry_behind_mark o n _ low
          ∙ subst
              (λ p. ops.read_entry o (ops.write_entry p (size_of ops mram_size reserved x) x m) ≡ x)
              h (laws.entry_written o x m whole),
      ap (λ p. p + size_of ops mram_size reserved x) h,
    )
    LaidOut-write (y ∷ ys) o e n x m all whole low h = (
      laws.entry_behind_mark o n _ low
          ∙ laws.entry_before o e _ x m (rw h.0 all.0) (rw h.0 (LaidOut-le ys _ e m h.1))
          ∙ h.0,
      LaidOut-write ys _ e n x m all.1 whole (omega arith) h.1,
    )

    -- The memory holds `xs` and nothing behind them.
    record IsLog (xs : List Entry) (s : Mram M) : Type 0 where
      shows : LaidOut xs 4 s.curr s.memory
      marked : ops.read_mark s.memory ≡ s.curr

    append-IsLog :
        (xs : List Entry) (x : Entry) (s : Mram M)
        → AllWhole xs
        → is_whole x ≡ true
        → mram_size < 4294967295
        → s.curr + ops.max_size ≤ mram_size
        → IsLog xs s
        → IsLog (xs ++ (x ∷ [])) (append_entry ops mram_size reserved x s).1
          × ((append_entry ops mram_size reserved x s).1.curr ≤ s.curr + ops.max_size)
    unfolding append_entry
    append-IsLog xs x s all whole small room h =
        let next : ℕ = s.curr + size_of ops mram_size reserved x in
        let no_wrap : u32 next ≡ next = omega (arith, laws.size-le x) in
        rw (le→ltb mram_size (s.curr + ops.max_size) room, no_wrap)
          (
            record {
              shows = LaidOut-write xs 4 s.curr next x s.memory all whole (omega arith) h.shows;
              marked = laws.mark_written next _ (omega (arith, laws.size-le x));
            },
            omega (arith, laws.size-le x),
          )

    read_end :
        {e : ℕ} (o : ℕ) (m : M)
        → e < 4294967295
        → ops.read_mark m ≡ e
        → o ≡ e
        → read_next ops mram_size reserved (record { curr = o; memory = m })
          ≡ (not_found, (ops.read_entry o m, record { curr = o; memory = m }))
    unfolding read_next
    read_end o m lt k h = ground arith

    read_one :
        (x : Entry) (xs : List Entry) (o e : ℕ) (m : M)
        → e < 4294967295
        → ops.read_mark m ≡ e
        → LaidOut (x ∷ xs) o e m
        → read_next ops mram_size reserved (record { curr = o; memory = m })
          ≡ (ok, (x, record { curr = o + size_of ops mram_size reserved x; memory = m }))
    unfolding read_next
    read_one x xs o e m lt k h =
        let size : ℕ = size_of ops mram_size reserved x in
        let inside : o + size ≤ e = LaidOut-le xs (o + size) e m h.1 in
        let some : 0 < size = laws.some_size x in
        let not_blank : (e == 4294967295) ≡ false = ground arith in
        let before_mark : leb e o ≡ false = ground arith in
        let not_zero : (size == 0) ≡ false = ground arith in
        let no_wrap : u32 (o + size) ≡ o + size = omega arith in
        rw (k, h.0, not_blank, before_mark, not_zero, no_wrap) refl

    read_from-LaidOut :
        (fuel : ℕ) (xs : List Entry) (o e : ℕ) (m : M)
        → length xs < fuel
        → e < 4294967295
        → ops.read_mark m ≡ e
        → LaidOut xs o e m
        → read_from fuel (record { curr = o; memory = m }) ≡ (xs, not_found)
    unfolding read_from
    read_from-LaidOut zero xs o e m f lt k h = absurd (omega arith)
    read_from-LaidOut (suc fuel) [] o e m f lt k h = rw (read_end o m lt k h) refl
    read_from-LaidOut (suc fuel) (x ∷ xs) o e m f lt k h =
        rw
          (
            read_one x xs o e m lt k h,
            read_from-LaidOut fuel xs (o + size_of ops mram_size reserved x) e m (omega arith) lt k
                h.1,
          )
          refl

    append_all-IsLog :
        (xs done : List Entry) (s : Mram M)
        → AllWhole xs
        → AllWhole done
        → mram_size < 4294967295
        → s.curr + length xs * ops.max_size ≤ mram_size
        → IsLog done s
        → IsLog (done ++ xs) (append_all xs s) × ((append_all xs s).curr ≤ mram_size)
    append_all-IsLog [] done s whole all small room h = (rw append-nil h, omega arith)
    append_all-IsLog (x ∷ xs) done s whole all small room h =
        let step = append-IsLog done x s all whole.0 small (omega arith) h in
        rw (sym (append_assoc done (x ∷ []) xs)) (
          append_all-IsLog xs (done ++ (x ∷ [])) (append_entry ops mram_size reserved x s).1 whole.1
            (AllWhole-snoc done x all whole.0) small (omega (arith, step.1)) step.0)

    -- Entries other than positions of areas, that are appended to a cleared log with room for them,
    -- are read back after a rewind, in order and without a change, and then the end is found; one
    -- round of the loop more than there are entries is enough. A place of the largest size is
    -- reckoned for each.
    pub read-append_all :
        (xs : List Entry) (s : Mram M) (fuel : ℕ)
        → AllWhole xs
        → mram_size < 4294967295
        → 4 + length xs * ops.max_size ≤ mram_size
        → length xs < fuel
        → read_from fuel
            (rewind ops mram_size reserved (append_all xs (clear ops mram_size reserved s)))
          ≡ (xs, not_found)
    unfolding clear rewind
    read-append_all xs s fuel whole small room enough =
        let h =
          append_all-IsLog xs [] (record { curr = 4; memory = ops.write_mark 4 s.memory }) whole tt
            small (omega arith)
            (record { shows = refl; marked = laws.mark_written 4 s.memory (omega arith) }) in
        read_from-LaidOut fuel xs 4 _ _ enough (omega (arith, h.1)) h.0.marked h.0.shows
