-- ===== src/Prelude/Table/Laws.antt =====
-- What is known of the entries of a table after an operation.
use Prim.Native.Nat.{ℕ}
use native.Mathlib.Omega.{arith}
use mathlib.Core.Path.{◌≡◌, refl, sym, ap, ◌∙◌, subst}
use mathlib.Core.Logic.{◌≢◌, inl, inr}
use mathlib.Core.Bool.{true, false, true≢false}
use mathlib.Core.Option.{none, some, some-injective, none-ne-some}
use mathlib.Core.List.{List, [], ◌∷◌}
use scalable_cross_platform.Prelude.Tests.{◌==◌, if◌then◌else◌, Bool-cases, ==_iff, ==_refl}
use scalable_cross_platform.Prelude.Lists.{All}
use scalable_cross_platform.Prelude.Table.{lookup, contains, insert, erase, modify}

module _ {ℓ} {V : Type ℓ} where
  pub lookup_of_contains :
      (k : ℕ) (m : List (ℕ × V)) → contains k m ≡ true → (v : V) × (lookup k m ≡ some v)
  unfolding lookup contains
  lookup_of_contains k [] h = absurd (true≢false (sym h))
  lookup_of_contains k ((j, v) ∷ m) h = elim (Bool-cases (j == k)) [
    | inl e ↦ (v, rw e)
    | inr e ↦ let (w, f) = lookup_of_contains k m (sym (rw e) ∙ h) in (w, rw e f)
  ]

  pub contains_of_lookup :
      (k : ℕ) (v : V) (m : List (ℕ × V)) → lookup k m ≡ some v → contains k m ≡ true
  unfolding lookup contains
  contains_of_lookup k v [] h = absurd (none-ne-some v h)
  contains_of_lookup k v ((j, w) ∷ m) h = elim (Bool-cases (j == k)) [
    | inl e ↦ rw e
    | inr e ↦ rw e (contains_of_lookup k v m (sym (rw e) ∙ h))
  ]

  pub contains-modify :
      (k j : ℕ) (f : V → V) (m : List (ℕ × V)) → contains k (modify j f m) ≡ contains k m
  unfolding contains modify
  contains-modify k j f [] = refl
  contains-modify k j f ((i, v) ∷ m) = elim (Bool-cases (i == j)) [
    | inl e ↦ rw e (ap (if◌then◌else◌ (i == k) true) (contains-modify k j f m))
    | inr e ↦ rw e (ap (if◌then◌else◌ (i == k) true) (contains-modify k j f m))
  ]

  pub contains-erase :
      (k j : ℕ) (m : List (ℕ × V)) → k ≢ j → contains k m ≡ true → contains k (erase j m) ≡ true
  unfolding contains erase
  contains-erase k j [] h c = c
  contains-erase k j ((i, v) ∷ m) h c = elim (Bool-cases (i == j)) [
    | inl e ↦
        let f : (i == k) ≡ false = ground (arith, e) in
        rw e (contains-erase k j m h (sym (rw f) ∙ c))
    | inr e ↦ elim (Bool-cases (i == k)) [
      | inl f ↦ rw e (rw f)
      | inr f ↦ rw e (rw f (contains-erase k j m h (sym (rw f) ∙ c)))
    ]
  ]

  -- What is there behind an `erase` was there before, under another key.
  pub erase-contains :
      (k j : ℕ) (m : List (ℕ × V)) → contains k (erase j m) ≡ true → (k ≢ j) × (contains k m ≡ true)
  unfolding contains erase
  erase-contains k j [] c = absurd (true≢false (sym c))
  erase-contains k j ((i, v) ∷ m) c = elim (Bool-cases (i == j)) [
    | inl e ↦
        let (d, h) = erase-contains k j m (sym (rw e) ∙ c) in
        let f : (i == k) ≡ false = ground (arith, e, d) in (d, rw f h)
    | inr e ↦ elim (Bool-cases (i == k)) [
      | inl f ↦ (ground (arith, e, f), rw f)
      | inr f ↦ let (d, h) = erase-contains k j m (sym (rw e (rw f)) ∙ c) in (d, rw f h)
    ]
  ]

  pub contains-insert :
      (k j : ℕ) (v : V) (m : List (ℕ × V)) → contains k m ≡ true → contains k (insert j v m) ≡ true
  unfolding contains insert
  contains-insert k j v [] c = absurd (true≢false (sym c))
  contains-insert k j v ((i, w) ∷ m) c = elim (Bool-cases (i == j)) [
    | inl e ↦ rw e c
    | inr e ↦ elim (Bool-cases (i == k)) [
      | inl f ↦ rw e (rw f)
      | inr f ↦ rw e (rw f (contains-insert k j v m (sym (rw f) ∙ c)))
    ]
  ]

  pub lookup-modify :
      (k : ℕ) (f : V → V) (v : V) (m : List (ℕ × V))
      → lookup k m ≡ some v
      → lookup k (modify k f m) ≡ some (f v)
  unfolding lookup modify
  lookup-modify k f v [] h = absurd (none-ne-some v h)
  lookup-modify k f v ((j, w) ∷ m) h = elim (Bool-cases (j == k)) [
    | inl e ↦ rw e (rw e (ap (λ x. some (f x)) (some-injective w v (sym (rw e) ∙ h))))
    | inr e ↦ rw e (rw e (lookup-modify k f v m (sym (rw e) ∙ h)))
  ]

  pub lookup-modify_other :
      (k j : ℕ) (f : V → V) (m : List (ℕ × V)) → k ≢ j → lookup k (modify j f m) ≡ lookup k m
  unfolding lookup modify
  lookup-modify_other k j f [] h = refl
  lookup-modify_other k j f ((i, w) ∷ m) h = elim (Bool-cases (i == j)) [
    | inl e ↦
        let g : (i == k) ≡ false = ground (arith, e) in rw e (rw g (lookup-modify_other k j f m h))
    | inr e ↦ rw e (ap (if◌then◌else◌ (i == k) (some w)) (lookup-modify_other k j f m h))
  ]

  pub lookup-erase : (k : ℕ) (m : List (ℕ × V)) → lookup k (erase k m) ≡ none
  unfolding lookup erase
  lookup-erase k [] = refl
  lookup-erase k ((i, v) ∷ m) = elim (Bool-cases (i == k)) [
    | inl e ↦ rw e (lookup-erase k m)
    | inr e ↦ rw e (rw e (lookup-erase k m))
  ]

  module _ {κ} (P : ℕ → V → Type κ) where
    -- A statement about every key and its value.
    abbrev pub Entries : List (ℕ × V) → Type κ
    Entries = All (λ e. P e.0 e.1)

    pub lookup-Entries :
        (k : ℕ) (v : V) (m : List (ℕ × V)) → lookup k m ≡ some v → Entries m → P k v
    unfolding lookup
    lookup-Entries k v [] h a = absurd (none-ne-some v h)
    lookup-Entries k v ((j, w) ∷ m) h a = elim (Bool-cases (j == k)) [
      | inl e ↦
          subst (λ i. P i v) ((==_iff j k).0 e)
            (subst (P j) (some-injective w v (sym (rw e) ∙ h)) a.0)
      | inr e ↦ lookup-Entries k v m (sym (rw e) ∙ h) a.1
    ]

    pub erase-Entries : (k : ℕ) (m : List (ℕ × V)) → Entries m → Entries (erase k m)
    unfolding erase
    erase-Entries k [] a = tt
    erase-Entries k ((j, v) ∷ m) a = elim (Bool-cases (j == k)) [
      | inl e ↦ rw e (erase-Entries k m a.1)
      | inr e ↦ rw e (a.0, erase-Entries k m a.1)
    ]

    pub insert-Entries :
        (k : ℕ) (v : V) (m : List (ℕ × V)) → P k v → Entries m → Entries (insert k v m)
    unfolding insert
    insert-Entries k v [] p a = (p, tt)
    insert-Entries k v ((j, w) ∷ m) p a = elim (Bool-cases (j == k)) [
      | inl e ↦ rw e a
      | inr e ↦ rw e (a.0, insert-Entries k v m p a.1)
    ]

    pub modify-Entries :
        (k : ℕ) (f : V → V) (m : List (ℕ × V))
        → ((v : V) → P k v → P k (f v))
        → Entries m
        → Entries (modify k f m)
    unfolding modify
    modify-Entries k f [] h a = tt
    modify-Entries k f ((j, v) ∷ m) h a = elim (Bool-cases (j == k)) [
      | inl e ↦ rw e (
        subst (λ i. P i v → P i (f v)) (sym ((==_iff j k).0 e)) (h v) a.0,
        modify-Entries k f m h a.1,
      )
      | inr e ↦ rw e (a.0, modify-Entries k f m h a.1)
    ]

    -- What holds of every other key holds of all that an erasure leaves.
    pub erase_others-Entries :
        (k : ℕ) (m : List (ℕ × V)) → All (λ e. e.0 ≢ k → P e.0 e.1) m → Entries (erase k m)
    unfolding erase
    erase_others-Entries k [] a = tt
    erase_others-Entries k ((j, v) ∷ m) a = elim (Bool-cases (j == k)) [
      | inl e ↦ rw e (erase_others-Entries k m a.1)
      | inr e ↦
          rw e (a.0 (λ i. true≢false (sym ((==_iff j k).1 i) ∙ e)), erase_others-Entries k m a.1)
    ]

    -- A change of the value of one key leaves what holds of the other keys.
    pub modify_others-Entries :
        (k : ℕ) (f : V → V) (m : List (ℕ × V))
        → Entries m
        → All (λ e. e.0 ≢ k → P e.0 e.1) (modify k f m)
    unfolding modify
    modify_others-Entries k f [] a = tt
    modify_others-Entries k f ((j, v) ∷ m) a = elim (Bool-cases (j == k)) [
      | inl e ↦ rw e (λ n. absurd (n ((==_iff j k).0 e)), modify_others-Entries k f m a.1)
      | inr e ↦ rw e (λ n. a.0, modify_others-Entries k f m a.1)
    ]

  -- What is true of every key that is there.
  pub contains-Entries :
      (P : ℕ → Type 0) (m : List (ℕ × V))
      → ((k : ℕ) → contains k m ≡ true → P k)
      → Entries (λ k v. P k) m
  unfolding contains
  contains-Entries P [] h = tt
  contains-Entries P ((j, v) ∷ m) h = (
    h j (rw (==_refl j)),
    contains-Entries P m
        (λ k c. h k (elim (Bool-cases (j == k)) [ inl e ↦ rw e | inr e ↦ rw e c ])),
  )
