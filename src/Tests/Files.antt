-- ===== src/Tests/Files.antt =====
-- A range of a file, written and read.
use paffs.Prelude.{
  ℕ, zero, suc, ◌+◌, ◌-◌, ◌≤◌, ◌<◌, ◌≡◌, refl, ◌∙◌, inl, false, ◌&&◌, List, [], ◌∷◌, ltb, leb, ◌==◌,
  if◌then◌else◌, replicate, get_or, get_or-replicate, arith,
}
use paffs.Types.{Result, SummaryEntry, used, dirty, ok, Inode, file}
use paffs.Journal.{data_io_topic}
use paffs.PageState.{PageState, clear}
use paffs.Addr.{combine_address, extract_logical_area, extract_page_offs}
use paffs.DataIo.{last_page, read_inode_data}
use paffs.DataIo.Write.{Writer, write_inode_data}
use paffs.DataIo.Content.{View, HasAddresses}
use paffs.DataIo.Marks.{IsIdle}
use paffs.DataIo.Storing.{CanWrite, Holds}
use paffs.DataIo.RoundTrip.{write_inode_data_lem, read_inode_data-write_inode_data}
use paffs.DataIo.Delete.{Deleter, delete_inode_data}
use paffs.DataIo.Deleting.{DeleteLaws}
use paffs.DataIo.Truncation.{IsTruncated, delete_inode_data_lem}
use paffs.Tests.Flash.{Shows-placed, Flash, Shows, config, page_ops, ops}
use paffs.Tests.FlashLaws.{Shows-set, laws}

-- An empty file, and six bytes at the end of its first page and on the next two.
abbrev no_pages : List ℕ
no_pages = replicate 11 0

abbrev blank : Flash
blank = record {
  direct = no_pages;
  byte = λ a i. 255;
  buffer = 9 ∷ 9 ∷ 9 ∷ 9 ∷ [];
  next = 65537;
  full = λ a. false;
  dead = λ a. false;
}

abbrev view : Flash → View
view w = record {
  target = 7;
  addresses = record { direct = w.direct; indir = 0; d_indir = 0; t_indir = 0 };
  addr = λ p. get_or w.direct p 0;
  byte = w.byte;
  written = λ a. leb 65537 a && ltb a w.next;
  issued = λ a. leb 65537 a && ltb a w.next;
  free = λ a. false;
  reserved = λ a. false;
  room = 131071 - w.next;
}

abbrev node : Inode
node = record {
  no = 7;
  type = file;
  perm = 0;
  reserved_pages = 0;
  size = 0;
  crea = 0;
  modified = 0;
  direct = no_pages;
  indir = 0;
  d_indir = 0;
  t_indir = 0;
}

abbrev machine : PageState
machine = clear page_ops 8 8 data_io_topic

abbrev six : List ℕ
six = 1 ∷ 2 ∷ 3 ∷ 4 ∷ 5 ∷ 6 ∷ []

abbrev empty_array : List ℕ
empty_array = 0 ∷ 0 ∷ 0 ∷ 0 ∷ 0 ∷ 0 ∷ []

no_page : (p : ℕ) → get_or no_pages p 0 ≡ 0
no_page p = get_or-replicate 11 p 0

blank-Shows : Shows blank (view blank)
blank-Shows = record {
  target = refl;
  addresses = refl;
  addr = λ p. refl;
  byte = λ a i. refl;
  written = λ a was. (ground (arith, was), ground (arith, was), refl);
  issued = λ a was. was;
  free = λ a e. absurd (ground arith);
  reserved = λ a e. absurd (ground arith);
  room = omega arith;
  from = omega arith;
  to = omega arith;
  length_is = refl;
  direct_length = refl;
  clean = λ some a low. (refl, refl);
  placed = λ p low ne. absurd (ne (no_page p));
  distinct = λ p q p_low q_low ne. absurd (ne (no_page p));
}

-- The page state machine after `clear`.
machine-IsIdle : IsIdle config 4 8 11 ops laws machine
unfolding clear
machine-IsIdle = record { long = refl; small = omega arith; none_held = refl }

six-last : last_page config 4 8 ops 3 6 ≡ 2
unfolding last_page
six-last = refl

six-CanWrite : CanWrite config 4 8 11 ops laws 3 6 (view blank)
six-CanWrite = record {
  range = record {
    nonempty = omega arith;
    some = omega arith;
    inside = omega arith;
    in_limit = omega arith;
    small = omega arith;
    few = rw six-last (omega arith);
  };
  few_pages = rw six-last (omega arith);
  roomy = rw six-last (omega arith);
  pages_small = omega arith;
}

write_inode_data_lem_example :
    (node' : Inode) × (s' : Writer Flash) × (v' : View) × (write_inode_data config 4 8 ops node 3 6
        six machine blank
      ≡ (ok, (node', s')))
    × (s'.done ≡ 6)
    × Shows s'.world v'
    × (node'.size ≡ 9)
    × (node'.no ≡ v'.target)
    × HasAddresses v' node'
    × Holds config 4 8 11 ops laws 3 6 0 six (view blank) v'
unfolding laws
write_inode_data_lem_example =
    write_inode_data_lem config 4 8 11 ops laws node 3 6 six machine blank (view blank) blank-Shows
      refl refl machine-IsIdle six-CanWrite (omega arith)

read_inode_data-write_inode_data_example :
    (node' : Inode) × (s' : Writer Flash) × (out' : List ℕ) × (w' : Flash) × (write_inode_data
        config 4 8 ops node 3 6 six machine blank
      ≡ (ok, (node', s')))
    × (read_inode_data config 4 8 ops node' 3 6 empty_array s'.world ≡ (ok, (6, (out', w'))))
    × ((i : ℕ) → i < 6 → get_or out' i 0 ≡ get_or six i 0)
unfolding laws
read_inode_data-write_inode_data_example =
    read_inode_data-write_inode_data config 4 8 11 ops laws node 3 6 six empty_array machine blank
      (view blank) blank-Shows refl refl machine-IsIdle six-CanWrite (omega arith) (omega arith)

-- A file of nine bytes, of which the last four are asked for, and two more.
abbrev two_pages : List ℕ
two_pages = 0 ∷ 65537 ∷ 65538 ∷ replicate 8 0

abbrev stored : Flash
stored = record {
  direct = two_pages;
  byte = λ a i. if a == 65537 then 10 + i else 20 + i;
  buffer = 9 ∷ 9 ∷ 9 ∷ 9 ∷ [];
  next = 65539;
  full = λ a. leb 65537 a && ltb a 65539;
  dead = λ a. false;
}

two_addresses :
    (p : ℕ) → get_or two_pages p 0 ≡ (if p == 1 then 65537 else if p == 2 then 65538 else 0)
two_addresses zero = refl
two_addresses (suc zero) = refl
two_addresses (suc (suc zero)) = refl
two_addresses (suc (suc (suc p))) = get_or-replicate 8 p 0 ∙ ground arith

stored-Shows : Shows stored (view stored)
stored-Shows = record {
  target = refl;
  addresses = refl;
  addr = λ p. refl;
  byte = λ a i. refl;
  written = λ a was. (ground (arith, was), ground (arith, was), refl);
  issued = λ a was. was;
  free = λ a e. absurd (ground arith);
  reserved = λ a e. absurd (ground arith);
  room = omega arith;
  from = omega arith;
  to = omega arith;
  length_is = refl;
  direct_length = refl;
  clean = λ some a low. (ground arith, refl);
  placed = λ p low ne. ground (arith, ne, two_addresses p);
  distinct = λ p q p_low q_low ne same. ground (arith, ne, same, two_addresses p, two_addresses q);
}

abbrev stored_node : Inode
stored_node = record node { size = 9; reserved_pages = 2; direct = two_pages }

-- The file loses its last page, and the page before keeps its place.
abbrev status_at : ℕ → ℕ → Flash → Result × (SummaryEntry × Flash)
status_at area page w = (ok, ((if w.dead (combine_address area page) then dirty else used), w))

marked_at :
    (a : ℕ)
    → 65536 ≤ a
    → a < 131072
    → combine_address (extract_logical_area a) (extract_page_offs a) ≡ a
unfolding combine_address extract_logical_area extract_page_offs
marked_at a low high = omega arith

delete_laws : DeleteLaws config 4 8 11 ops laws status_at
unfolding laws
delete_laws = record {
  status_ok = λ p w v h lt ne.
      let (low, high, alive) = h.written (v.addr p) (Shows-placed w v p h lt ne) in
      (used, w, rw (marked_at (v.addr p) low (omega (arith, high, h.to)), alive) refl, refl, h);
  clear_page_ok = λ p w v h lt. (_, refl, Shows-set w v p 0 h lt (inl refl));
}

delete_inode_data_lem_example :
    (node' : Inode) × (s' : Deleter Flash) × (v' : View) × (delete_inode_data config 4 8 ops
        status_at stored_node 5 false machine stored
      ≡ (ok, (node', s')))
    × (node'.size ≡ 5)
    × Shows s'.world v'
    × HasAddresses v' node'
    × IsTruncated config 4 8 11 ops laws status_at 5 9 (view stored) v'
unfolding laws
delete_inode_data_lem_example =
    delete_inode_data_lem config 4 8 11 ops laws status_at delete_laws stored_node 5 false machine
      stored (view stored) stored-Shows refl refl machine-IsIdle (omega arith) (omega arith)
      (omega arith) (omega arith) (omega arith)
