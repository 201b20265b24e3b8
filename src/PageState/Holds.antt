-- ===== src/PageState/Holds.antt =====
-- The page state machine as a list of replacements, and its loops as folds over that list.
use paffs.Prelude.{
  ℕ, suc, ◌+◌, ◌<◌, ◌≡◌, refl, subst, ◌∙◌, Bool, true, false, List, [], ◌∷◌, ◌++◌, ◌==◌,
  if◌then◌else◌, get_or, set, length, length-set, length-replicate, length-append, ==_iff, map,
  get_or-set_self, get_or-set_ne, arith,
}
use paffs.Types.{dirty}
use paffs.Journal.{Topic}
use paffs.PageState.{
  PageOps, PageState, clear, with_position, store_pages, store_position, dirty_from, any_from,
  restore_from,
}

-- One call of `replacePage`.
pub record Replacement : Type 0 where
  pub neu : ℕ
  pub old : ℕ
  pub inode : ℕ
  pub pos : ℕ

-- From index `i` on, a list shows the numbers `f` of the replacements.
abbrev pub Agrees : (Replacement → ℕ) → ℕ → List Replacement → List ℕ → Type 0
Agrees f i [] xs = Unit
Agrees f i (r ∷ rs) xs = (get_or xs i 0 ≡ f r) × Agrees f (i + 1) rs xs

length-snoc : (rs : List Replacement) (r : Replacement) → length (rs ++ (r ∷ [])) ≡ suc (length rs)
length-snoc rs r = omega (arith, length-append rs (r ∷ []))

Agrees-append :
    (f : Replacement → ℕ) (r : Replacement) (i n : ℕ) (rs : List Replacement) (xs : List ℕ)
    → Agrees f i rs xs
    → n ≡ i + length rs
    → n < length xs
    → Agrees f i (rs ++ (r ∷ [])) (set xs n (f r))
Agrees-append f r i n [] xs h eq lt = (
  subst (λ m. get_or (set xs n (f r)) m 0 ≡ f r) (omega arith) (get_or-set_self xs n (f r) 0 lt),
  tt,
)
Agrees-append f r i n (q ∷ rs) xs h eq lt = (
  get_or-set_ne xs n i (f r) 0 (omega arith) ∙ h.0,
  Agrees-append f r (i + 1) n rs xs h.1 (omega arith) lt,
)

-- The lists show the replacements, and have the lengths of the arrays.
pub record Holds (max_pages max_positions : ℕ) (rs : List Replacement) (s : PageState)
    : Type 0 where
  pub count : s.high_water ≡ length rs
  pub new_size : length s.new_pages ≡ max_pages
  pub old_size : length s.old_pages ≡ max_pages
  pub position_size : length s.positions ≡ max_positions
  pub news : Agrees Replacement.neu 0 rs s.new_pages
  pub olds : Agrees Replacement.old 0 rs s.old_pages
  pub places : max_pages ≡ max_positions → Agrees Replacement.pos 0 rs s.positions

module _ {W : Type 0} (ops : PageOps W) (max_pages max_positions : ℕ) (target : Topic) where
  abbrev H : List Replacement → PageState → Type 0
  H = Holds max_pages max_positions

  pub clear-Holds : H [] (clear ops max_pages max_positions target)
  unfolding clear
  clear-Holds = record {
    count = refl;
    new_size = length-replicate max_pages 0;
    old_size = length-replicate max_pages 0;
    position_size = length-replicate max_positions 0;
    news = tt;
    olds = tt;
    places = λ _. tt;
  }

  -- What `replacePage` does to the lists; `b` is `withPosition`.
  abbrev pub stored_if : Bool → Replacement → PageState → PageState
  stored_if b r s =
      store_pages ops max_pages max_positions target r.neu r.old
        (if b then store_position ops max_pages max_positions target r.pos s else s)

  abbrev pub stored : Replacement → PageState → PageState
  stored = stored_if (with_position ops max_pages max_positions target)

  module _ (rs : List Replacement) (r : Replacement) (s : PageState) (small : max_pages < 65536)
      (room : length rs < max_pages) (h : H rs s) where
    stored_if-Holds :
        (b : Bool) → (max_pages ≡ max_positions → b ≡ true) → H (rs ++ (r ∷ [])) (stored_if b r s)
    stored_if-Holds true eq = record {
      count = ground (arith, h.count, length-snoc rs r);
      new_size = length-set s.new_pages s.high_water r.neu ∙ h.new_size;
      old_size = length-set s.old_pages s.high_water r.old ∙ h.old_size;
      position_size = length-set s.positions s.high_water r.pos ∙ h.position_size;
      news =
          Agrees-append Replacement.neu r 0 _ rs s.new_pages h.news (omega (arith, h.count))
            (rw (h.new_size, h.count) room);
      olds =
          Agrees-append Replacement.old r 0 _ rs s.old_pages h.olds (omega (arith, h.count))
            (rw (h.old_size, h.count) room);
      places = λ e.
          Agrees-append Replacement.pos r 0 _ rs s.positions (h.places e) (omega (arith, h.count))
            (omega (arith, h.position_size, h.count, e));
    }
    stored_if-Holds false eq = record {
      count = ground (arith, h.count, length-snoc rs r);
      new_size = length-set s.new_pages s.high_water r.neu ∙ h.new_size;
      old_size = length-set s.old_pages s.high_water r.old ∙ h.old_size;
      position_size = h.position_size;
      news =
          Agrees-append Replacement.neu r 0 _ rs s.new_pages h.news (omega (arith, h.count))
            (rw (h.new_size, h.count) room);
      olds =
          Agrees-append Replacement.old r 0 _ rs s.old_pages h.olds (omega (arith, h.count))
            (rw (h.old_size, h.count) room);
      places = λ e. cc (eq e);
    }

    pub stored-Holds : H (rs ++ (r ∷ [])) (stored r s)
    stored-Holds =
        stored_if-Holds (with_position ops max_pages max_positions target) (λ e. (==_iff _ _).1 e)

  -- The loops over the lists, as folds over the pages themselves.
  unfoldable pub dirty_all : List ℕ → W → W
  dirty_all [] w = w
  dirty_all (a ∷ rest) w = dirty_all rest (if a == 0 then w else (ops.set_page_status a dirty w).1)

  unfoldable pub any_page : List ℕ → Bool
  any_page [] = false
  any_page (a ∷ rest) = let later : Bool = any_page rest in if a == 0 then later else true

  unfoldable pub restore_all : List Replacement → W → W
  restore_all [] w = w
  restore_all (r ∷ rs) w = restore_all rs (ops.set_page r.pos r.old w)

  pub dirty_from-Agrees :
      (f : Replacement → ℕ) (i : ℕ) (rs : List Replacement) (xs : List ℕ) (w : W)
      → Agrees f i rs xs
      → dirty_from ops max_pages max_positions target (length rs) i xs w ≡ dirty_all (map f rs) w
  unfolding dirty_from dirty_all
  dirty_from-Agrees f i [] xs w h = refl
  dirty_from-Agrees f i (r ∷ rs) xs w h =
      rw (dirty_from, h.0) (dirty_from-Agrees f (i + 1) rs xs _ h.1)

  pub any_from-Agrees :
      (f : Replacement → ℕ) (i : ℕ) (rs : List Replacement) (xs : List ℕ)
      → Agrees f i rs xs
      → any_from ops max_pages max_positions target (length rs) i xs ≡ any_page (map f rs)
  unfolding any_from any_page
  any_from-Agrees f i [] xs h = refl
  any_from-Agrees f i (r ∷ rs) xs h = rw (h.0, any_from-Agrees f (i + 1) rs xs h.1) refl

  pub restore_from-Agrees :
      (i : ℕ) (rs : List Replacement) (olds positions : List ℕ) (w : W)
      → Agrees Replacement.old i rs olds
      → Agrees Replacement.pos i rs positions
      → restore_from ops max_pages max_positions target (length rs) i olds positions w
        ≡ restore_all rs w
  unfolding restore_from restore_all
  restore_from-Agrees i [] olds positions w h k = refl
  restore_from-Agrees i (r ∷ rs) olds positions w h k =
      rw (restore_from, h.0, k.0) (restore_from-Agrees (i + 1) rs olds positions _ h.1 k.1)
