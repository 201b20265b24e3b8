-- ===== src/DataIo/Positions.antt =====
-- The pages of a range of bytes.
use paffs.Prelude.{
  ℕ, zero, suc, ◌+◌, ◌-◌, ◌*◌, ◌/◌, ◌%◌, ◌≤◌, ◌<◌, ◌≡◌, ==_iff, ==-ne, ℕ_discrete, arith,
}
use native.Mathlib.Nat.{div-add-mod', div-le_of_le-mul, mod-eq_of_lt}
use native.Mathlib.Decide.{dec_lt}
use paffs.Types.{Config}
use paffs.DataIo.{IoOps, sub32, last_page}

-- The number `k` lies in the page `p`.
pub record InPage (size p k : ℕ) : Type 0 where
  pub above : p * size ≤ k
  pub below : k < (p + 1) * size

pub in_div : (size k : ℕ) → 0 < size → InPage size (k / size) k
in_div size k h = record { above = grind arith; below = grind arith }

pub page_mono : (size p q j k : ℕ) → InPage size p j → InPage size q k → j ≤ k → p ≤ q
page_mono size p q j k a b h = elim (dec_lt q p) [
  | yes lt ↦
      let far : (q + 1) * size ≤ p * size = grind arith in absurd (omega (arith, a.above, b.below))
  | no le ↦ omega arith
]

-- The page of the byte before `end`, where `end` begins a page.
before_page :
    (size end q : ℕ) → 0 < size → 0 < end → end ≡ q * size → (0 < q) × InPage size (q - 1) (end - 1)
before_page size end zero h pos e = absurd (omega (arith, e))
before_page size end (suc q) h pos e =
    let cut : suc q * size ≡ q * size + size = grind arith in
    let up : (q + 1) * size ≡ q * size + size = grind arith in
    let same : suc q - 1 ≡ q = omega arith in
    rw same
      (omega arith, record { above = omega (arith, e, cut); below = omega (arith, e, cut, up) })

quotient_le : (size end : ℕ) → 0 < size → end / size ≤ end
quotient_le size end h = div-le_of_le-mul size (grind arith)

module _ {W : Type 0} (c : Config) (size max_pages : ℕ) (ops : IoOps W) where
  -- The last page is that of the last byte.
  pub last_page-InPage :
      (offs bytes : ℕ)
      → 0 < size
      → 0 < offs + bytes
      → offs + bytes < 4294967296
      → InPage size (last_page c size max_pages ops offs bytes) (offs + bytes - 1)
  unfolding last_page
  last_page-InPage offs bytes h some small =
      let end : ℕ = offs + bytes in
      let split : end / size * size + end % size ≡ end = div-add-mod' end size in
      rw (mod-eq_of_lt small) (elim (ℕ_discrete (end % size) 0) [
        | yes e ↦
            let (pos, inside) =
              before_page size end (end / size) h some (omega (arith, split, e)) in
            let no_wrap : sub32 (end / size) 1 ≡ end / size - 1 =
              omega (arith, quotient_le size end h) in
            rw ((==_iff (end % size) 0).1 e, no_wrap) inside
        | no ne ↦
            let i : InPage size (end / size) end = in_div size end h in
            rw (==-ne (end % size) 0 ne)
              (record { above = omega (arith, split); below = omega (arith, i.below) })
      ])
