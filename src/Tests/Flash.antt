-- ===== src/Tests/Flash.antt =====
-- A flash of one area, with one file of direct addresses: pages of four bytes, numbered by their
-- addresses. A page is written once, and only after it was marked as used; the tree knows one inode.
use paffs.Prelude.{
  ℕ, zero, suc, ◌+◌, ◌-◌, ◌≤◌, ◌<◌, ◌≡◌, ◌≢◌, refl, ◌∙◌, Bool, true, false, not, ◌||◌, set, List,
  [], ◌∷◌, ltb, ◌==◌, if◌then◌else◌, length, get_or, arith,
}
use paffs.Types.{
  ok, bug, no_space, too_big, bad_flash, SummaryEntry, used, dirty, Config, unset, data_area,
  active, closed,
}
use paffs.PageState.{PageOps}
use paffs.Superblock
use paffs.Superblock.{Superblock}
use paffs.Addr.{get_page_number, extract_logical_area, extract_page_offs, combine_address}
use paffs.DataIo.{IoOps, is_sane, place_of}
use paffs.DataIo.Content.{View}

-- `next` is the first page that is not marked, `full` tells which pages were written, `dead` which
-- are dirty.
pub record Flash : Type 0 where
  pub direct : List ℕ
  pub byte : ℕ → ℕ → ℕ
  pub buffer : List ℕ
  pub next : ℕ
  pub full : ℕ → Bool
  pub dead : ℕ → Bool

abbrev pub config : Config
config = record {
  areas_no = 2;
  blocks_per_area = 1;
  pages_per_block = 65536;
  total_pages_per_area = 65536;
  data_pages_per_area = 65535;
  mram_size = 4096;
  reserved_logsize = 64;
}

abbrev pub map : Superblock
map = record {
  map =
      record { type = unset; status = closed; erasecount = 0; position = 0 }
      ∷ record { type = data_area; status = active; erasecount = 0; position = 1 }
      ∷ [];
  active_areas = 0 ∷ 0 ∷ 0 ∷ 0 ∷ 1 ∷ 0 ∷ 0 ∷ [];
  used = 1;
  deletions = 0;
  root = 0;
  root_dirty = false;
}

abbrev pub mark : ℕ → SummaryEntry → Flash → Flash
mark a used w = record w { next = if a == w.next then w.next + 1 else w.next }
mark a dirty w = record w { dead = λ b. if b == a then true else w.dead b }
mark a _ w = w

abbrev pub page_ops : PageOps Flash
page_ops = record {
  add_event = λ e w. w;
  set_page_status = λ a s w. (ok, mark a s w);
  set_journalling_inode = λ n w. w;
  set_page = λ p a w. w;
  commit = λ w. w;
}

abbrev pub ops : IoOps Flash
ops = record {
  pages = page_ops;
  read_only = λ w. false;
  area_map = λ w. map;
  find_writable = λ w. if ltb w.next 131071 then (ok, w) else (no_space, w);
  find_first_free = λ a w. (ok, (w.next - 65536, w));
  manage_full = λ w. (ok, w);
  set_target = λ n w. (ok, record w { direct = n.direct });
  target_no = λ w. 7;
  addresses = λ w. record { direct = w.direct; indir = 0; d_indir = 0; t_indir = 0 };
  get_page = λ p w. if ltb p 11 then (ok, (get_or w.direct p 0, w)) else (too_big, (0, w));
  set_page = λ p a w. (ok, record w { direct = set w.direct p a });
  set_valid = λ w. w;
  buffer = λ w. w.buffer;
  put_buffer = λ b w. record w { buffer = b };
  read_page =
      λ p n w. (ok, record w { buffer = w.byte p 0 ∷ w.byte p 1 ∷ w.byte p 2 ∷ w.byte p 3 ∷ [] });
  write_page = λ p n w. if w.full p || not (ltb p w.next) then (bad_flash, w) else (
    ok,
    record w {
      byte = λ a i. if a == p then get_or w.buffer i 0 else w.byte a i;
      full = λ a. if a == p then true else w.full a;
    },
  );
  update_inode = λ n w. if n.no == 7 then (ok, w) else (bug, w);
  now = λ w. 5;
}

-- The pages with an address were written, and lie below `next`; they are different ones.
pub record Shows (w : Flash) (v : View) : Type 0 where
  pub target : v.target ≡ 7
  pub addresses : v.addresses ≡ record { direct = w.direct; indir = 0; d_indir = 0; t_indir = 0 }
  pub addr : (p : ℕ) → v.addr p ≡ get_or w.direct p 0
  pub byte : (a i : ℕ) → v.byte a i ≡ w.byte a i
  pub written : (a : ℕ) → v.written a ≡ true → (65536 ≤ a) × (a < w.next) × (w.dead a ≡ false)
  pub issued : (a : ℕ) → v.written a ≡ true → v.issued a ≡ true
  pub free : (a : ℕ) → v.free a ≡ true → a ≡ w.next
  pub reserved :
      (a : ℕ)
      → v.reserved a ≡ true
      → (65536 < a) × (a < w.next) × (w.full a ≡ false) × (w.dead a ≡ false)
  pub room : v.room ≤ 131071 - w.next
  pub from : 65536 < w.next
  pub to : w.next ≤ 131071
  pub length_is : length w.buffer ≡ 4
  pub direct_length : length w.direct ≡ 11
  pub clean : 0 < v.room → (a : ℕ) → w.next ≤ a → (w.full a ≡ false) × (w.dead a ≡ false)
  pub placed : (p : ℕ) → p < 11 → get_or w.direct p 0 ≢ 0 → v.written (get_or w.direct p 0) ≡ true
  pub distinct :
      (p q : ℕ)
      → p < 11
      → q < 11
      → get_or w.direct p 0 ≢ 0
      → get_or w.direct p 0 ≡ get_or w.direct q 0
      → p ≡ q

area_of : (a : ℕ) → 65536 ≤ a → a < 131072 → extract_logical_area a ≡ 1
unfolding extract_logical_area
area_of a low high = omega arith

pub place_lem : (a : ℕ) → 65536 ≤ a → a < 131072 → get_page_number config a map ≡ a
unfolding get_page_number extract_page_offs Superblock.get_pos
place_lem a low high = rw (area_of a low high) (ground arith)

pub sane_lem : (w : Flash) (a : ℕ) → 65536 ≤ a → a < 131072 → is_sane config 4 8 ops a w ≡ true
unfolding is_sane Superblock.get_type
sane_lem w a low high = rw (area_of a low high) refl

pub page_cell : (b : ℕ → ℕ) (i : ℕ) → i < 4 → get_or (b 0 ∷ b 1 ∷ b 2 ∷ b 3 ∷ []) i 0 ≡ b i
page_cell b zero lt = refl
page_cell b (suc zero) lt = refl
page_cell b (suc (suc zero)) lt = refl
page_cell b (suc (suc (suc zero))) lt = refl
page_cell b (suc (suc (suc (suc i)))) lt = absurd (omega arith)

abbrev pub cells : ℕ → Flash → List ℕ
cells p w = w.byte p 0 ∷ w.byte p 1 ∷ w.byte p 2 ∷ w.byte p 3 ∷ []

abbrev pub place : ℕ → Flash → ℕ
place a w = place_of config 4 8 ops a w

pub combine_lem : (n : ℕ) → 65536 < n → n ≤ 131071 → combine_address 1 (n - 65536) ≡ n
unfolding combine_address
combine_lem n low high = omega arith

pub with_buffer :
    (w : Flash) (v : View) (b : List ℕ)
    → Shows w v
    → length b ≡ 4
    → Shows (record w { buffer = b }) v
with_buffer w v b h len = record {
  target = h.target;
  addresses = h.addresses;
  addr = h.addr;
  byte = h.byte;
  written = h.written;
  issued = h.issued;
  free = h.free;
  reserved = h.reserved;
  room = h.room;
  from = h.from;
  to = h.to;
  length_is = len;
  direct_length = h.direct_length;
  clean = h.clean;
  placed = h.placed;
  distinct = h.distinct;
}

pub is_place : (w : Flash) (v : View) (a : ℕ) → Shows w v → v.written a ≡ true → place a w ≡ a
is_place w v a h written =
    let (low, high, alive) = h.written a written in place_lem a low (omega (arith, high, h.to))

pub sane_written :
    (w : Flash) (v : View) (a : ℕ)
    → Shows w v
    → v.written a ≡ true
    → is_sane config 4 8 ops a w ≡ true
sane_written w v a h written =
    let (low, high, alive) = h.written a written in sane_lem w a low (omega (arith, high, h.to))

pub Shows-placed :
    (w : Flash) (v : View) (p : ℕ) → Shows w v → p < 11 → v.addr p ≢ 0 → v.written (v.addr p) ≡ true
Shows-placed w v p h low ne =
    let at : v.addr p ≡ get_or w.direct p 0 = h.addr p in rw at (h.placed p low (λ e. ne (at ∙ e)))
