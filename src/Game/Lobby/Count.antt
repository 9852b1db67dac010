-- ===== src/Game/Lobby/Count.antt =====
-- How often a key is in a list of entries.
use scalable_cross_platform.Prelude.{
  ℕ, suc, ◌+◌, ◌≤◌, ◌≡◌, ◌≢◌, refl, sym, ap, ◌∙◌, inl, inr, Bool, true, false, List, [], ◌∷◌, ◌++◌,
  ◌==◌, if◌then◌else◌, Bool-cases, arith, ==_refl, ==_iff,
}
use mathlib.Core.Bool.{true≢false}
use scalable_cross_platform.Prelude.Table.{contains, insert, erase, modify}

-- How often a key is in a list.
unfoldable pub count {ℓ} : {V : Type ℓ} → ℕ → List (ℕ × V) → ℕ
count k [] = 0
count k ((j, v) ∷ m) = if j == k then suc (count k m) else count k m

module _ {ℓ} {V : Type ℓ} where
  pub count-append : (k : ℕ) (l m : List (ℕ × V)) → count k (l ++ m) ≡ count k l + count k m
  unfolding count
  count-append k [] m = omega arith
  count-append k ((j, v) ∷ l) m = elim (Bool-cases (j == k)) [
    | inl b ↦ rw (b) (omega (arith, count-append k l m))
    | inr b ↦ rw (b) (omega (arith, count-append k l m))
  ]

  pub count-erase : (k : ℕ) (m : List (ℕ × V)) → count k (erase k m) ≡ 0
  unfolding count erase
  count-erase k [] = refl
  count-erase k ((j, v) ∷ m) = elim (Bool-cases (j == k)) [
    | inl b ↦ rw (b) (count-erase k m)
    | inr b ↦ rw (b) (rw (b) (count-erase k m))
  ]

  count-erase_other : (k j : ℕ) (m : List (ℕ × V)) → k ≢ j → count k (erase j m) ≡ count k m
  unfolding count erase
  count-erase_other k j [] h = refl
  count-erase_other k j ((i, v) ∷ m) h = elim (Bool-cases (i == j)) [
    | inl b ↦
        let f : (i == k) ≡ false = ground (arith, b, h) in
        rw (b) (rw (f) (count-erase_other k j m h))
    | inr b ↦ elim (Bool-cases (i == k)) [
      | inl f ↦ rw (b) (rw (f) (ap suc (count-erase_other k j m h)))
      | inr f ↦ rw (b) (rw (f) (count-erase_other k j m h))
    ]
  ]

  pub count-modify : (k j : ℕ) (f : V → V) (m : List (ℕ × V)) → count k (modify j f m) ≡ count k m
  unfolding count modify
  count-modify k j f [] = refl
  count-modify k j f ((i, v) ∷ m) = elim (Bool-cases (i == j)) [
    | inl b ↦ elim (Bool-cases (i == k)) [
      | inl e ↦ rw (b) (rw (e) (ap suc (count-modify k j f m)))
      | inr e ↦ rw (b) (rw (e) (count-modify k j f m))
    ]
    | inr b ↦ elim (Bool-cases (i == k)) [
      | inl e ↦ rw (b) (rw (e) (ap suc (count-modify k j f m)))
      | inr e ↦ rw (b) (rw (e) (count-modify k j f m))
    ]
  ]

  pub count_positive : (k : ℕ) (m : List (ℕ × V)) → contains k m ≡ true → 1 ≤ count k m
  unfolding count contains
  count_positive k [] h = absurd (true≢false (sym h))
  count_positive k ((j, v) ∷ m) h = elim (Bool-cases (j == k)) [
    | inl b ↦ rw (b) (omega arith)
    | inr b ↦ rw (b) (count_positive k m (sym (rw (b)) ∙ h))
  ]

-- One account more at the end of a list.
module _ (k a v : ℕ) (l : List (ℕ × ℕ)) where
  pub count_more : (a == k) ≡ true → count k (l ++ ((a, v) ∷ [])) ≡ count k l + 1
  unfolding count
  count_more b = count-append k l ((a, v) ∷ []) ∙ rw (b) refl

  pub count_same : (a == k) ≡ false → count k (l ++ ((a, v) ∷ [])) ≡ count k l
  unfolding count
  count_same b = count-append k l ((a, v) ∷ []) ∙ rw (b) (omega arith)

pub contains-insert_self :
    (k : ℕ) (b : Bool) (m : List (ℕ × Bool)) → contains k (insert k b m) ≡ true
unfolding contains insert
contains-insert_self k b [] = rw (==_refl k)
contains-insert_self k b ((j, v) ∷ m) = elim (Bool-cases (j == k)) [
  | inl e ↦ rw (e) (rw (e) refl)
  | inr e ↦ rw (e) (rw (e) (contains-insert_self k b m))
]

pub count-erase-bound : (k a : ℕ) (m : List (ℕ × ℕ)) → count k (erase a m) ≤ count k m
count-erase-bound k a m = elim (Bool-cases (k == a)) [
  | inl b ↦
      let z = ap (λ x. count k (erase x m)) (sym ((==_iff k a).0 b)) ∙ count-erase k m in
      omega (arith, z)
  | inr b ↦ omega (arith, count-erase_other k a m (λ f. true≢false (sym ((==_iff k a).1 f) ∙ b)))
]
