-- ===== src/Concurrency/Mpsc/Links.antt =====
-- What holds of the links at every step.
use scalable_cross_platform.Prelude.{
  ℕ, suc, ◌≤◌, ◌<◌, ◌≡◌, ◌≢◌, refl, sym, ap, ◌∙◌, ◌⊎◌, inl, inr, false, none, some, arith, ◌==◌,
  ==_refl, Option-cases,
}
use mathlib.Core.Option.{some-injective, none-ne-some}
use native.Mathlib.Decide.{ℕ_discrete}
use scalable_cross_platform.Concurrency.Mpsc.{Queue, empty, set, exchange, link}

module _ {ℓ} {A : Type ℓ} (k : ℕ) (v : A) (f : ℕ → A) where
  pub set-here : set k v f k ≡ v
  unfolding set
  set-here = rw (==_refl k)

  pub set-there : (j : ℕ) → j ≢ k → set k v f j ≡ f j
  unfolding set
  set-there j h = rw (differs)
    where
      differs : (j == k) ≡ false
      differs = ground arith

-- Every node but the last is linked to the one behind it, or its successor's producer still has to
-- do so; and no producer holds a node that the consumer has passed and deleted.
pub record IsLinked (q : Queue) : Type 0 where
  pub ordered : q.tail ≤ q.head
  pub last : q.next q.head ≡ none
  pub chain :
      (k : ℕ)
      → q.tail ≤ k
      → k < q.head
      → (q.next k ≡ some (suc k)) ⊎ ((q.next k ≡ none) × (q.waiting (suc k) ≡ some k))
  pub held :
      (n p : ℕ)
      → q.waiting n ≡ some p
      → (n ≡ suc p) × (q.tail ≤ p) × (p < q.head) × (q.next p ≡ none)

pub empty-IsLinked : IsLinked empty
empty-IsLinked = record {
  ordered = omega arith;
  last = refl;
  chain = λ k g h. absurd (omega (arith, h));
  held = λ n p e. absurd (none-ne-some p e);
}

module _ (q : Queue) (l : IsLinked q) where
  module _ (value : ℕ) where
    exchange-chain :
        (k : ℕ)
        → q.tail ≤ k
        → k < suc q.head
        → ((exchange q value).next k ≡ some (suc k))
          ⊎ (((exchange q value).next k ≡ none) × ((exchange q value).waiting (suc k) ≡ some k))
    unfolding exchange
    exchange-chain k g h = elim (ℕ_discrete k q.head) [
      | yes e ↦ inr (
        set-there (suc q.head) none q.next k (omega (arith, e)) ∙ ap q.next e ∙ l.last,
        ap (λ j. set (suc q.head) (some q.head) q.waiting (suc j)) e
            ∙ set-here (suc q.head) (some q.head) q.waiting
            ∙ ap some (sym e),
      )
      | no n ↦
          rw
            (
              set-there (suc q.head) none q.next k (omega (arith, h)),
              set-there (suc q.head) (some q.head) q.waiting (suc k) (omega (arith, n, h)),
            )
            (l.chain k g (omega (arith, n, h)))
    ]

    pub exchange-IsLinked : IsLinked (exchange q value)
    unfolding exchange
    exchange-IsLinked = record {
      ordered = omega (arith, l.ordered);
      last = set-here (suc q.head) none q.next;
      chain = exchange-chain;
      held = held;
    }
      where
        held :
            (n p : ℕ)
            → set (suc q.head) (some q.head) q.waiting n ≡ some p
            → (n ≡ suc p)
              × (q.tail ≤ p)
              × (p < suc q.head)
              × (set (suc q.head) none q.next p ≡ none)
        held n p e = elim (ℕ_discrete n (suc q.head)) [
          | yes i ↦
              let own : q.head ≡ p = some-injective q.head p (
                sym (set-here (suc q.head) (some q.head) q.waiting)
                ∙ ap (set (suc q.head) (some q.head) q.waiting) (sym i)
                ∙ e) in
              (
                omega (arith, i, own),
                omega (arith, l.ordered, own),
                omega (arith, own),
                set-there (suc q.head) none q.next p (omega (arith, own))
                    ∙ ap q.next (sym own)
                    ∙ l.last,
              )
          | no i ↦
              let (a, b, c, d) =
                l.held n p (sym (set-there (suc q.head) (some q.head) q.waiting n i) ∙ e) in
              (a, b, omega (arith, c), set-there (suc q.head) none q.next p (omega (arith, c)) ∙ d)
        ]

  module _ (node : ℕ) where
    link-eq :
        (p : ℕ)
        → q.waiting node ≡ some p
        → link q node
          ≡ record q { next = set p (some node) q.next; waiting = set node none q.waiting }
    unfolding link
    link-eq p e = rw (e, link)

    joined-IsLinked :
        (p : ℕ)
        → q.waiting node ≡ some p
        → IsLinked (record q { next = set p (some node) q.next; waiting = set node none q.waiting })
    joined-IsLinked p e =
        let (a, b, c, d) = l.held node p e in
        record {
          ordered = l.ordered;
          last = set-there p (some node) q.next q.head (omega (arith, c)) ∙ l.last;
          chain = λ k g h. elim (ℕ_discrete k p) [
            | yes i ↦ inl (
                ap (set p (some node) q.next) i
                ∙ set-here p (some node) q.next
                ∙ ap some (a ∙ ap suc (sym i)))
            | no i ↦
                rw
                  (
                    set-there p (some node) q.next k i,
                    set-there node none q.waiting (suc k) (omega (arith, a, i)),
                  )
                  (l.chain k g h)
          ];
          held = λ n r f. elim (ℕ_discrete n node) [
            | yes i ↦ absurd (
                none-ne-some r
                  (sym (set-here node none q.waiting) ∙ ap (set node none q.waiting) (sym i) ∙ f))
            | no i ↦
                let (a', b', c', d') = l.held n r (sym (set-there node none q.waiting n i) ∙ f) in
                (a', b', c', set-there p (some node) q.next r (omega (arith, a, a', i)) ∙ d')
          ];
        }

    pub link-IsLinked : IsLinked (link q node)
    link-IsLinked = elim (Option-cases (q.waiting node)) [
      | inl e ↦ rw (unlinked e) l
      | inr (p, e) ↦ rw (link-eq p e) (joined-IsLinked p e)
    ]
      where
        unlinked : q.waiting node ≡ none → link q node ≡ q
        unlinked e = unfold link in rw (e, link)
