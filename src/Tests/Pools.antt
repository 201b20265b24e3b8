-- ===== src/Tests/Pools.antt =====
-- A pool of four objects, of which the first and the third are in use.
use paffs.Prelude.{ℕ, ◌≡◌, refl, false, [], ◌∷◌, if◌then◌else◌, get_or, arith}
use paffs.Pool.{ObjectPool, get_new_object, free_object, get_usage, clear}
use paffs.Pool.Laws.{
  IsPool, IsTaken, IsFreed, is_used, used_count, get_new_object_lem, free_object_lem,
  get_usage-used_count,
}
use paffs.Pool.Clear.{clear_lem}

abbrev pool : ObjectPool ℕ
pool = record { active_objects = 5 ∷ []; objects = 7 ∷ 8 ∷ 9 ∷ 10 ∷ [] }

pool-IsPool : IsPool 4 pool
pool-IsPool = record { bits = record { sized = refl; bytes = (omega arith, tt) }; sized = refl }

get_new_object_lem_example : IsTaken 4 0 1 0 pool (get_new_object 4 0 1 0 pool)
get_new_object_lem_example = get_new_object_lem 4 0 1 0 pool pool-IsPool

free_object_lem_example : IsFreed 4 0 1 0 2 pool (free_object 4 0 1 0 2 pool)
free_object_lem_example = free_object_lem 4 0 1 0 2 pool pool-IsPool

get_usage-used_count_test : get_usage 4 0 1 0 pool ≡ used_count 4 0 1 0 pool
get_usage-used_count_test = get_usage-used_count 4 0 1 0 pool (omega arith)

clear_lem_example :
    IsPool 4 (clear 4 0 1 0 pool)
    × ((j : ℕ) → is_used 4 0 1 0 j (clear 4 0 1 0 pool) ≡ false)
    × ((j : ℕ)
        → get_or (clear 4 0 1 0 pool).objects j 0
          ≡ (if is_used 4 0 1 0 j pool then 0 else get_or pool.objects j 0))
clear_lem_example = clear_lem 4 0 1 0 pool pool-IsPool
