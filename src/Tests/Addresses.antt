-- ===== src/Tests/Addresses.antt =====
-- A flash of address lists with two addresses each.
use paffs.Prelude.{
  ℕ, ◌+◌, ◌/◌, ◌%◌, ◌^◌, ◌≡◌, refl, true, false, List, [], ◌∷◌, some, get_or, replicate, ltb, ◌&&◌,
  if◌then◌else◌,
}
use paffs.Types.{ok, bug, Inode, file}
use paffs.PageAddress.{
  AddrList, ListOps, PageCache, get_addr, load_elem, commit_elem, place, load_child, load_children,
  load_path, path, get_doubl, get_tripl,
}
use paffs.PageAddress.Walk.{get_doubl_lem}

-- The list at the address `a` holds `2 a` and `2 a + 1`; the anchor of the tree is 1.
abbrev lists : ℕ → List ℕ
lists a = (a + a) ∷ (a + a + 1) ∷ []

abbrev ops : ListOps ℕ
ops = record {
  read_list = λ a w. if ltb 0 a && ltb a 8 then (ok, lists a) else (bug, []);
  write_list = λ a es w. (ok, (a, w));
  give_up = λ a w. (ok, w);
}

abbrev node : Inode
node = record {
  no = 7;
  type = file;
  perm = 0;
  reserved_pages = 0;
  size = 0;
  crea = 0;
  modified = 0;
  direct = replicate 11 0;
  indir = 0;
  d_indir = 1;
  t_indir = 1;
}

abbrev idle : AddrList
idle = record { cache = []; position = 0; dirty = false; active = false }

abbrev list_at : ℕ → ℕ → AddrList
list_at a pos = record { cache = lists a; position = pos; dirty = false; active = true }

-- The lists of the page 0 of either indirection are loaded.
abbrev cache : PageCache
cache = record {
  inode = some node;
  singl = idle;
  doubl = list_at 1 0;
  doubl_rest = list_at 2 0 ∷ [];
  tripl = list_at 1 0;
  tripl_rest = list_at 2 0 ∷ list_at 4 0 ∷ [];
}

get_doubl_lem_example :
    ((get_doubl ops 2 3 node cache 0).0 ≡ ok)
    × ((get_doubl ops 2 3 node cache 0).1.0
        ≡ get_or (lists (get_or (lists 1) (3 / 2 ^ 1 % 2) 0)) (3 % 2) 0)
get_doubl_lem_example =
    get_doubl_lem ops 2 lists 3 node cache (list_at 2 0) 0 refl refl refl
      (record { clean = refl; cache = refl }) (record { clean = refl; cache = refl })

-- The third indirection: page 4 lies below the lists 3 and 6 at the address 12. Its list stands at
-- the same position as that of page 0, which is not loaded again, and 8 is answered.
stale_list : (get_tripl ops 2 4 node cache 0).1.0 ≡ 8
unfolding get_tripl load_path load_children load_child commit_elem place load_elem path get_addr
stale_list = refl
