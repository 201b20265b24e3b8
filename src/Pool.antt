-- ===== src/Pool.antt =====
-- src/pools.hpp, `ObjectPool`: a fixed array of objects, and a bit list of those in use. A pointer
-- to an object is its index; an address before or behind the array is an index that is too large.
pub mod Laws
pub mod Clear
use paffs.Prelude.{ℕ, zero, suc, ◌+◌, Bool, true, false, List, ltb, leb, if◌then◌else◌, set, u8}
use paffs.Types.{Result, ok, no_space, invalid_input, bug}
use paffs.BitList
use paffs.BitList.{find_first_free, set_bit, reset_bit, get_bit}

pub record ObjectPool (T : Type 0) : Type 0 where
  pub active_objects : List ℕ
  pub objects : List T

-- `fresh` is what the constructor of `T` makes, `zeroed` what memset leaves; `beyond` is the byte
-- behind the bit list.
module _ {T : Type 0} (size beyond : ℕ) (fresh zeroed : T) where
  abbrev P : Type 0
  P = ObjectPool T

  unfoldable pub get_new_object : P → Result × (ℕ × P)
  get_new_object p =
      let offs : ℕ = find_first_free size beyond p.active_objects in
      if leb size offs then (no_space, (offs, p)) else (
        ok,
        (
          offs,
          record {
            active_objects = set_bit size offs p.active_objects;
            objects = set p.objects offs fresh;
          },
        ),
      )

  abbrev pub is_from_pool : ℕ → Bool
  is_from_pool i = ltb i size

  unfoldable pub free_object : ℕ → P → Result × P
  free_object i p =
      if is_from_pool i
      then (if get_bit size i p.active_objects
          then (
            ok,
            record {
              active_objects = reset_bit size i p.active_objects;
              objects = set p.objects i zeroed;
            },
          )
          else (bug, p))
      else (invalid_input, p)

  -- The loop of `getUsage`; `usedObjects` has 8 bits.
  unfoldable pub usage_from : ℕ → ℕ → List ℕ → ℕ → ℕ
  usage_from zero i list used = used
  usage_from (suc rounds) i list used =
      usage_from rounds (i + 1) list (if get_bit size i list then u8 (used + 1) else used)

  unfoldable pub get_usage : P → ℕ
  unfolding usage_from
  get_usage p = usage_from size 0 p.active_objects 0

  -- The loop of `clear` that frees the forgotten objects.
  unfoldable pub free_from : ℕ → ℕ → P → P
  free_from zero i p = p
  free_from (suc rounds) i p =
      free_from rounds (i + 1) (if get_bit size i p.active_objects then (free_object i p).1 else p)

  unfoldable pub clear : P → P
  clear p = let p1 : P = free_from size 0 p in record p1 { active_objects = BitList.clear size }
