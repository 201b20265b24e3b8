-- ===== src/Garbage/Moving.antt =====
-- The copy of the valid pages into the garbage buffer.
use paffs.Prelude.{ℕ, ◌+◌, ◌≤◌, ◌<◌, ◌≡◌, ◌≢◌, ◌⊎◌, Bool, true, List, if◌then◌else◌, get_or}
use paffs.Types.{Result, ok, SummaryEntry, free, error}
use paffs.Device.{Env, Device}
use paffs.Garbage.{GarbageOps, is_used, is_readable}

-- The pages of the flash. A page that can be read gives its content and nothing changes; an erased
-- page can be written, once, and no other page changes.
pub record PageLaws {F D : Type 0} (ops : GarbageOps F D) : Type 1 where
  pub content : F → ℕ → List ℕ
  pub IsReadable : F → ℕ → Type 0
  pub IsErased : F → ℕ → Type 0
  pub read_ok :
      (p : ℕ) (f : F)
      → IsReadable f p
      → (r : Result) × (f' : F) × (ops.read_page p f ≡ (r, (content f p, f')))
        × (is_readable r ≡ true)
        × ((q : ℕ) → content f' q ≡ content f q)
        × ((q : ℕ) → IsReadable f q → IsReadable f' q)
        × ((q : ℕ) → IsErased f q → IsErased f' q)
  pub write_ok :
      (p : ℕ) (x : List ℕ) (f : F)
      → IsErased f p
      → (f' : F) × (ops.write_page p x f ≡ (ok, f'))
        × (content f' p ≡ x)
        × ((q : ℕ) → q ≢ p → content f' q ≡ content f q)
        × ((q : ℕ) → q ≢ p → IsReadable f q → IsReadable f' q)
        × ((q : ℕ) → q ≢ p → IsErased f q → IsErased f' q)

module _ {F C P : Type 0} (e : Env F C P) (ops : GarbageOps F (Device F C P)) (laws : PageLaws ops)
    (worse : Result → Result → Result) where
  abbrev Moves : Type 0
  Moves = Result × (Bool × (List SummaryEntry × F))

  -- From `page` on, `n` pages: those in use are copied, those that are not are free in the summary.
  pub record IsMoved (n page src dst : ℕ) (summary : List SummaryEntry) (ret : Result) (f : F)
      (m : Moves) : Type 0 where
    pub result_is : m.0 ≡ ret
    pub copied :
        (j : ℕ)
        → page ≤ j
        → j < page + n
        → is_used (get_or summary j error) ≡ true
        → laws.content m.1.1.1 (dst + j) ≡ laws.content f (src + j)
    pub others :
        (q : ℕ)
        → ((j : ℕ) → page ≤ j → j < page + n → q ≢ dst + j)
        → laws.content m.1.1.1 q ≡ laws.content f q
    pub summary_is :
        (j : ℕ)
        → page ≤ j
        → j < page + n
        → get_or m.1.1.0 j error
          ≡ (if is_used (get_or summary j error) then get_or summary j error else free)
    pub summary_others :
        (j : ℕ) → (j < page) ⊎ (page + n ≤ j) → get_or m.1.1.0 j error ≡ get_or summary j error

  -- The two areas have no page in common.
  abbrev pub Apart : ℕ → ℕ → ℕ → Type 0
  Apart total src dst = (i j : ℕ) → i < total → j < total → src + i ≢ dst + j

  module _ (total src dst : ℕ) (apart : Apart total src dst) where
    -- The next `n` pages that are in use can be read, and have an erased place.
    pub record CanMove (n page : ℕ) (summary : List SummaryEntry) (f : F) : Type 0 where
      pub can_read :
          (j : ℕ)
          → page ≤ j
          → j < page + n
          → is_used (get_or summary j error) ≡ true
          → laws.IsReadable f (src + j)
      pub can_write :
          (j : ℕ)
          → page ≤ j
          → j < page + n
          → is_used (get_or summary j error) ≡ true
          → laws.IsErased f (dst + j)
