-- ===== src/Tests/Garbage.antt =====
-- Garbage collection on a device of eight areas; the blocks of area 4 cannot be erased.
use paffs.Prelude.{
  some, ℕ, ◌≡◌, refl, sym, ap, Bool, true, false, leb, ltb, ◌&&◌, ==-ne, List, [], ◌∷◌, replicate,
  ◌==◌, if◌then◌else◌, arith,
}
use paffs.Types.{
  Result, ok, bad_flash, superblock, index, data_area, garbage_buffer, closed, Area, SummaryEntry,
  free, used, dirty,
}
use paffs.Superblock
use paffs.Superblock.{Superblock}
use paffs.Device.{Env, Device, DriverOps}
use paffs.AreaMgmt.{init_as}
use paffs.Garbage.{
  GarbageOps, is_candidate, is_better, is_cleanable, weigh, search_areas, count_pages,
  find_next_best_area,
}
use paffs.Garbage.Search.{SummaryLaws, Answers, find_next_best_area_lem}
use paffs.Garbage.Rounds.{candidates}
use paffs.Garbage.Ends.{DeletionLaws, collect_garbage_ends}
use paffs.Garbage.Moving.{PageLaws}
use paffs.Garbage.Collect.{is_takeable, collect_garbage, find_writable_area}
use paffs.Garbage.Writable.{find_writable_area-finds}
use paffs.Tests.Sample.{config, summary, memory, MemoryLog, free_area, used_area}

-- A flash is what its pages hold.
abbrev Pages : Type 0
Pages = ℕ → List ℕ

abbrev driver : DriverOps Pages
driver = record {
  erase_block = λ b f. (if b == 8 then bad_flash else ok, f);
  mark_bad = λ b f. (ok, f);
  check_bad = λ b f. (bad_flash, f);
}

abbrev env : Env Pages (List ℕ) MemoryLog
env = record { config = config; driver = driver; summary = summary; persistence = memory }

abbrev closed_area : ℕ → Area
closed_area p = record { type = data_area; status = closed; erasecount = 0; position = p }

abbrev areas : Superblock
areas = record {
  map =
      used_area superblock 0
      ∷ used_area index 1
      ∷ closed_area 2
      ∷ used_area garbage_buffer 3
      ∷ closed_area 4
      ∷ free_area 5
      ∷ free_area 6
      ∷ free_area 7
      ∷ [];
  active_areas = 0 ∷ 0 ∷ 0 ∷ 1 ∷ 0 ∷ 3 ∷ 0 ∷ [];
  used = 5;
  deletions = 0;
  root = 0;
  root_dirty = false;
}

abbrev device : Device Pages (List ℕ) MemoryLog
device = record {
  sb = areas;
  cache = [];
  flash = λ p. p ∷ [];
  journal = record {
    disabled = false;
    uncheckpointed = 0 ∷ 0 ∷ [];
    persistence = record { written = []; left = 40 };
  };
}

-- Area 2 has three dirty pages and two in use, and area 4 has dirty pages only.
abbrev mixed : List SummaryEntry
mixed = dirty ∷ used ∷ dirty ∷ used ∷ dirty ∷ free ∷ free ∷ []

abbrev sums : ℕ → List SummaryEntry
sums i = if i == 2 then mixed else if i == 4 then replicate 7 dirty else replicate 7 free

-- A page that is written cannot be written again.
abbrev is_blank : List ℕ → Bool
is_blank [] = true
is_blank (x ∷ xs) = false

abbrev ops : GarbageOps Pages (Device Pages (List ℕ) MemoryLog)
ops = record {
  get_summary = λ i d. (ok, (sums i, d));
  set_summary = λ i s d. (ok, d);
  was_written = λ i d. false;
  should_clear = λ i d. false;
  read_page = λ p f. (ok, (f p, f));
  write_page =
      λ p x f. if is_blank (f p) then (ok, λ q. if q == p then x else f q) else (bad_flash, f);
}

laws : SummaryLaws ops
laws = record {
  Knows = λ s d. (i : ℕ) → s i ≡ sums i;
  get_ok = λ s i d knows. (d, ap (λ x. (ok, (x, d))) (sym (knows i)), refl, knows);
}

kept : DeletionLaws env ops laws
unfolding laws
kept = record { keeps = λ a d s knows. (s, knows) }

page_laws : PageLaws ops
page_laws = record {
  content = λ f p. f p;
  IsReadable = λ f p. is_blank (f p) ≡ false;
  IsErased = λ f p. is_blank (f p) ≡ true;
  read_ok = λ p f h. (ok, f, refl, refl, λ q. refl, λ q r. r, λ q r. r);
  write_ok = λ p x f h. (
    (λ q. if q == p then x else f q),
    rw h refl,
    ground arith,
    λ q ne. ground (arith, ne),
    λ q ne r. rw (==-ne q p ne) r,
    λ q ne r. rw (==-ne q p ne) r,
  );
}

-- The garbage buffer is erased.
abbrev buffered : Pages
buffered p = if leb 24 p && ltb p 32 then [] else p ∷ []

abbrev worse : Result → Result → Result
worse a b = a

find_next_best_area_lem_example :
    Answers env ops data_area sums laws refl device (find_next_best_area env ops data_area device)
unfolding laws
find_next_best_area_lem_example =
    find_next_best_area_lem env ops data_area sums laws refl device (λ i. refl)

-- The area of dirty pages only is taken.
finds_dirty : (find_next_best_area env ops data_area device).0.area ≡ 4
unfolding find_next_best_area search_areas weigh is_cleanable is_better is_candidate count_pages
    Superblock.get_status Superblock.get_type Superblock.get_erasecount
finds_dirty = refl

two_candidates : candidates env ops 8 device ≡ 2
unfolding candidates is_candidate Superblock.get_status Superblock.get_type
two_candidates = refl

collect_garbage_ends_example :
    (rd : Result × Device Pages (List ℕ) MemoryLog) × (collect_garbage env ops worse 3 data_area
        device
      ≡ some rd)
unfolding laws
collect_garbage_ends_example =
    collect_garbage_ends env ops laws kept worse data_area refl 3 device sums (λ i. refl)
      (rw two_candidates (omega arith))

find_writable_area-finds_example :
    (b : ℕ) × (find_writable_area env ops worse 2 0 data_area device
      ≡ some (ok, (b, init_as env b data_area device)))
    × (is_takeable env ops worse b device ≡ true)
unfolding Superblock.get_active_area is_takeable Superblock.get_status Superblock.get_pos
find_writable_area-finds_example =
    find_writable_area-finds env ops worse device 2 0 5 data_area refl (omega arith) (omega arith)
      (omega arith) refl
