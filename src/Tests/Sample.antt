-- ===== src/Tests/Sample.antt =====
-- A small device: eight areas of two blocks of four pages, a flash that remembers which blocks
-- were erased, a cache that is a list of areas, and a log of limited length.
use paffs.Prelude.{
  ℕ, zero, suc, ◌+◌, ◌≤◌, ◌<◌, ◌≡◌, refl, inl, Bool, true, false, List, [], ◌∷◌, ◌++◌, ◌==◌,
  if◌then◌else◌, arith,
}
use paffs.Types.{
  Result, ok, no_space, bad_flash, Config, Area, AreaType, index, data_area, garbage_buffer,
  superblock, unset, active, empty,
}
use paffs.Journal.{Entry, PersistenceOps}
use paffs.Journal.Log.{PersistenceLaws}
use paffs.Superblock.{Superblock}
use paffs.Device.{Device, Env, DriverOps, SummaryOps}

abbrev pub config : Config
config = record {
  areas_no = 8;
  blocks_per_area = 2;
  pages_per_block = 4;
  total_pages_per_area = 8;
  data_pages_per_area = 7;
  mram_size = 4096;
  reserved_logsize = 64;
}

abbrev pub driver : DriverOps (List ℕ)
driver = record {
  erase_block = λ b f. (ok, b ∷ f);
  mark_bad = λ b f. (ok, f);
  check_bad = λ b f. (bad_flash, f);
}

abbrev pub contains : ℕ → List ℕ → Bool
contains a [] = false
contains a (x ∷ xs) = if x == a then true else contains a xs

abbrev pub without : ℕ → List ℕ → List ℕ
without a [] = []
without a (x ∷ xs) = if x == a then without a xs else x ∷ without a xs

abbrev pub summary : SummaryOps (List ℕ)
summary = record { exists_elem = contains; clear_written = λ a xs. xs; drop_elem = without }

pub record MemoryLog : Type 0 where
  pub written : List Entry
  pub left : ℕ

abbrev append_at : ℕ → Entry → MemoryLog → Result × MemoryLog
append_at zero x p = (no_space, p)
append_at (suc n) x p = (ok, record { written = p.written ++ (x ∷ []); left = n })

abbrev pub memory : PersistenceOps MemoryLog
memory = record { append_entry = λ x p. append_at p.left x p; is_low_mem = λ p. p.left == 0 }

pub memory_append :
    (n : ℕ) (x : Entry) (p : MemoryLog)
    → 0 < n
    → ((append_at n x p).0 ≡ ok) × ((append_at n x p).1.written ≡ p.written ++ (x ∷ []))
memory_append zero x p h = absurd (omega arith)
memory_append (suc n) x p h = (refl, refl)

pub memory_room :
    (n : ℕ) (x : Entry) (p : MemoryLog) → p.left ≡ n → n ≤ (append_at n x p).1.left + 1
memory_room zero x p e = omega arith
memory_room (suc n) x p e = omega arith

abbrev pub memory_laws : PersistenceLaws memory
memory_laws = record {
  entries = λ p. p.written;
  room = λ p. p.left;
  append_ok = λ x p h. inl (memory_append p.left x p h).0;
  append_entries = λ x p h. (memory_append p.left x p h).1;
  append_room = λ x p. memory_room p.left x p refl;
}

abbrev pub env : Env (List ℕ) (List ℕ) MemoryLog
env = record { config = config; driver = driver; summary = summary; persistence = memory }

abbrev pub free_area : ℕ → Area
free_area p = record { type = unset; status = empty; erasecount = 0; position = p }

abbrev pub used_area : AreaType → ℕ → Area
used_area t p = record { type = t; status = active; erasecount = 0; position = p }

-- The superblock, an index and a data area, and the garbage buffer; four areas are free.
abbrev pub areas : Superblock
areas = record {
  map =
      used_area superblock 0
      ∷ used_area index 1
      ∷ used_area data_area 2
      ∷ used_area garbage_buffer 3
      ∷ free_area 4
      ∷ free_area 5
      ∷ free_area 6
      ∷ free_area 7
      ∷ [];
  active_areas = 0 ∷ 0 ∷ 0 ∷ 1 ∷ 2 ∷ 3 ∷ 0 ∷ [];
  used = 4;
  deletions = 0;
  root = 0;
  root_dirty = false;
}

abbrev pub device : Device (List ℕ) (List ℕ) MemoryLog
device = record {
  sb = areas;
  cache = 2 ∷ [];
  flash = [];
  journal = record {
    disabled = false;
    uncheckpointed = 0 ∷ 0 ∷ [];
    persistence = record { written = []; left = 40 };
  };
}
