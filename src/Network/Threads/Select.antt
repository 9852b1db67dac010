-- ===== src/Network/Threads/Select.antt =====
-- The thread that gets the next connection.
use scalable_cross_platform.Prelude.{
  ℕ, ◌+◌, ◌≤◌, ◌<◌, ◌≡◌, refl, sym, inl, inr, some, List, [], ◌∷◌, ◌++◌, ltb, Bool-cases,
  append-nil, append_assoc, length, length-append, arith, ltb→lt,
}
use mathlib.Core.Path.{subst}
use mathlib.Core.Option.{none-ne-some}
use scalable_cross_platform.Prelude.Vectors.{
  get_elem?, get_elem?-append, get_elem?-last, get_elem?-snoc,
}
use scalable_cross_platform.Network.Threads.{select_from, select_thread}

-- The first of the least.
pub record IsFirstLeast (l : List ℕ) (i c : ℕ) : Type 0 where
  pub there : get_elem? i l ≡ some c
  pub least : (k x : ℕ) → get_elem? k l ≡ some x → c ≤ x
  pub first : (k x : ℕ) → get_elem? k l ≡ some x → k < i → c < x
  pub bound : i < length l

-- One thread more, whose count is less.
less-IsFirstLeast :
    (l : List ℕ) (i c x : ℕ)
    → x < c
    → IsFirstLeast l i c
    → IsFirstLeast (l ++ (x ∷ [])) (length l) x
less-IsFirstLeast l i c x h p = record {
  there = get_elem?-last x l;
  least = λ k y e. elim (get_elem?-snoc k y x l e) [
    | inl f ↦ omega (arith, h, p.least k y f)
    | inr (f, g) ↦ omega (arith, g)
  ];
  first = λ k y e b. elim (get_elem?-snoc k y x l e) [
    | inl f ↦ omega (arith, h, p.least k y f)
    | inr (f, g) ↦ absurd (omega (arith, b, f))
  ];
  bound = omega (arith, length-append l (x ∷ []));
}

-- One thread more, whose count is not.
more-IsFirstLeast :
    (l : List ℕ) (i c x : ℕ) → c ≤ x → IsFirstLeast l i c → IsFirstLeast (l ++ (x ∷ [])) i c
more-IsFirstLeast l i c x h p = record {
  there = get_elem?-append i c l (x ∷ []) p.there;
  least = λ k y e. elim (get_elem?-snoc k y x l e) [
    | inl f ↦ p.least k y f
    | inr (f, g) ↦ omega (arith, h, g)
  ];
  first = λ k y e b. elim (get_elem?-snoc k y x l e) [
    | inl f ↦ p.first k y f b
    | inr (f, g) ↦ absurd (omega (arith, b, f, p.bound))
  ];
  bound = omega (arith, length-append l (x ∷ []), p.bound);
}

select_from-IsFirstLeast :
    (l rest : List ℕ) (i c n : ℕ)
    → n ≡ length l
    → IsFirstLeast l i c
    → (least : ℕ) × IsFirstLeast (l ++ rest) (select_from n i c rest) least
unfolding select_from
select_from-IsFirstLeast l [] i c n h p =
    (c, subst (λ k. IsFirstLeast k i c) (sym (append-nil l)) p)
select_from-IsFirstLeast l (x ∷ rest) i c n h p =
    let e = append_assoc l (x ∷ []) rest in
    elim (Bool-cases (ltb x c)) [
      | inl b ↦
          let q = less-IsFirstLeast l i c x (ltb→lt x c b) p in
          let (y, r) =
            select_from-IsFirstLeast (l ++ (x ∷ [])) rest n x (n + 1)
              (omega (arith, h, length-append l (x ∷ [])))
              (subst (λ k. IsFirstLeast (l ++ (x ∷ [])) k x) (sym h) q) in
          (y, rw (b) (subst (λ k. IsFirstLeast k (select_from (n + 1) n x rest) y) e r))
      | inr b ↦
          let (y, r) =
            select_from-IsFirstLeast (l ++ (x ∷ [])) rest i c (n + 1)
              (omega (arith, h, length-append l (x ∷ [])))
              (more-IsFirstLeast l i c x (ground (arith, b)) p) in
          (y, rw (b) (subst (λ k. IsFirstLeast k (select_from (n + 1) i c rest) y) e r))
    ]

-- Of at least one thread, `SelectThreadWithMinConnections` takes the first of those that have the
-- fewest connections by their counts.
pub select_thread-IsFirstLeast :
    (c : ℕ) (cs : List ℕ) → (least : ℕ) × IsFirstLeast (c ∷ cs) (select_thread (c ∷ cs)) least
unfolding select_thread get_elem?
select_thread-IsFirstLeast c cs = select_from-IsFirstLeast (c ∷ []) cs 0 c 1 refl (record {
  there = refl;
  least = λ k y e. elim (get_elem?-snoc k y c [] e) [
    | inl f ↦ absurd (none-ne-some y f)
    | inr (f, g) ↦ omega (arith, g)
  ];
  first = λ k y e b. absurd (omega (arith, b));
  bound = omega arith;
})
