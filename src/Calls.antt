-- ===== src/Calls.antt =====
-- Functions that return early: a step of one goes on with a value, or the function returns a
-- result; the state comes back in both cases.
use paffs.Prelude.{◌≡◌, Bool, true, false}
use paffs.Types.{Result, ok}

pub data Step (S A : Type 0) : Type 0 where
  go : A → S → Step S A
  stop : Result → S → Step S A

abbrev pub Call : Type 0 → Type 0 → Type 0
Call S A = S → Step S A

module _ {S A B : Type 0} where
  infixl 5 ◌>>=◌
  abbrev pub ◌>>=◌ : Call S A → (A → Call S B) → Call S B
  ◌>>=◌ m f s = elim (m s) [ go a s' ↦ f a s' | stop r s' ↦ stop r s' ]

  infixl 5 ◌>>◌
  abbrev pub ◌>>◌ : Call S A → Call S B → Call S B
  m >> k = m >>= λ _. k

  -- What follows a step that goes on.
  pub bind-go :
      (m : Call S A) (f : A → Call S B) {s s' : S} {a : A} → m s ≡ go a s' → (m >>= f) s ≡ f a s'
  bind-go m f {s' = s'} {a} e = rw (e, ◌>>=◌)

module _ {S : Type 0} where
  -- A test whose failure is answered with the result.
  abbrev pub demand : Bool → Result → Call S (Unit {0})
  demand true r s = go tt s
  demand false r s = stop r s

module _ {S A : Type 0} where
  -- The result and the state that a function returns.
  abbrev pub returned : Step S A → Result × S
  returned (go a s) = (ok, s)
  returned (stop r s) = (r, s)
