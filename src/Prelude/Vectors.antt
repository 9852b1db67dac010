-- ===== src/Prelude/Vectors.antt =====
-- `std::vector`: a list with an index, under the library's names.
use Prim.Native.Nat.{ℕ, zero, suc, ◌<◌}
use native.Mathlib.Omega.{arith}
use mathlib.Core.Path.{◌≡◌, refl, ap}
use mathlib.Core.Logic.{◌≢◌, ◌⊎◌, inl, inr}
use mathlib.Core.Option.{Option, none, some, some-injective, none-ne-some}
use mathlib.Core.List.{List, [], ◌∷◌, ◌++◌}
use scalable_cross_platform.Prelude.Lists.{length}

module _ {ℓ} {A : Type ℓ} where
  unfoldable pub get_elem? : ℕ → List A → Option A
  get_elem? n [] = none
  get_elem? zero (x ∷ xs) = some x
  get_elem? (suc n) (x ∷ xs) = get_elem? n xs

  -- An assignment to an element; none is outside.
  unfoldable pub set : ℕ → A → List A → List A
  set n a [] = []
  set zero a (x ∷ xs) = a ∷ xs
  set (suc n) a (x ∷ xs) = x ∷ set n a xs

  pub get_elem?-append :
      (n : ℕ) (x : A) (xs ys : List A) → get_elem? n xs ≡ some x → get_elem? n (xs ++ ys) ≡ some x
  unfolding get_elem?
  get_elem?-append n x [] ys h = absurd (none-ne-some x h)
  get_elem?-append zero x (y ∷ xs) ys h = h
  get_elem?-append (suc n) x (y ∷ xs) ys h = get_elem?-append n x xs ys h

  pub get_elem?-last : (x : A) (xs : List A) → get_elem? (length xs) (xs ++ (x ∷ [])) ≡ some x
  unfolding get_elem?
  get_elem?-last x [] = refl
  get_elem?-last x (y ∷ xs) = get_elem?-last x xs

  -- An element behind a push is an old one or the new one.
  pub get_elem?-snoc :
      (n : ℕ) (x y : A) (xs : List A)
      → get_elem? n (xs ++ (y ∷ [])) ≡ some x
      → (get_elem? n xs ≡ some x) ⊎ ((n ≡ length xs) × (y ≡ x))
  unfolding get_elem?
  get_elem?-snoc zero x y [] h = inr (refl, some-injective y x h)
  get_elem?-snoc (suc n) x y [] h = absurd (none-ne-some x h)
  get_elem?-snoc zero x y (z ∷ xs) h = inl h
  get_elem?-snoc (suc n) x y (z ∷ xs) h = elim (get_elem?-snoc n x y xs h) [
    | inl e ↦ inl e
    | inr (e, f) ↦ inr (ap suc e, f)
  ]

  pub get_elem?-bound : (n : ℕ) (x : A) (xs : List A) → get_elem? n xs ≡ some x → n < length xs
  unfolding get_elem?
  get_elem?-bound n x [] h = absurd (none-ne-some x h)
  get_elem?-bound zero x (y ∷ xs) h = omega arith
  get_elem?-bound (suc n) x (y ∷ xs) h = omega (arith, get_elem?-bound n x xs h)

  pub get_elem?-set_other :
      (n k : ℕ) (a : A) (xs : List A) → n ≢ k → get_elem? n (set k a xs) ≡ get_elem? n xs
  unfolding get_elem? set
  get_elem?-set_other n k a [] h = refl
  get_elem?-set_other zero zero a (x ∷ xs) h = absurd (h refl)
  get_elem?-set_other zero (suc k) a (x ∷ xs) h = refl
  get_elem?-set_other (suc n) zero a (x ∷ xs) h = refl
  get_elem?-set_other (suc n) (suc k) a (x ∷ xs) h =
      get_elem?-set_other n k a xs (λ e. h (ap suc e))

  pub get_elem?-set :
      (n : ℕ) (a x : A) (xs : List A) → get_elem? n xs ≡ some x → get_elem? n (set n a xs) ≡ some a
  unfolding get_elem? set
  get_elem?-set n a x [] h = absurd (none-ne-some x h)
  get_elem?-set zero a x (y ∷ xs) h = refl
  get_elem?-set (suc n) a x (y ∷ xs) h = get_elem?-set n a x xs h
