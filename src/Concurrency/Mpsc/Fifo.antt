-- ===== src/Concurrency/Mpsc/Fifo.antt =====
-- The queue is first in, first out, in the order of the exchanges, under every interleaving.
use scalable_cross_platform.Prelude.{
  ℕ, zero, suc, ◌+◌, ◌-◌, ◌≤◌, ◌<◌, ◌≡◌, ◌≢◌, refl, sym, ap, ◌∙◌, inl, inr, Option, none, some,
  List, [], ◌∷◌, ◌++◌, append-nil, append_assoc, arith, Option-cases,
}
use native.Mathlib.Decide.{ℕ_discrete}
use mathlib.Core.Option.{some-injective, some-ne-none}
use scalable_cross_platform.Concurrency.Mpsc.{Queue, empty, set, exchange, link, dequeue}
use scalable_cross_platform.Concurrency.Mpsc.Links.{
  set-here, set-there, IsLinked, empty-IsLinked, exchange-IsLinked, link-IsLinked,
}

-- A step of one of the threads.
pub data Step : Type 0 where
  exchanged linked : ℕ → Step
  dequeued : Step

abbrev with_result : List ℕ → Option ℕ → List ℕ
with_result taken none = taken
with_result taken (some v) = taken ++ (v ∷ [])

-- The queue, and what the consumer has got so far.
unfoldable pub step : Queue × List ℕ → Step → Queue × List ℕ
step (q, taken) (exchanged v) = (exchange q v, taken)
step (q, taken) (linked node) = (link q node, taken)
step (q, taken) dequeued = let (r, t) = dequeue q in (t, with_result taken r)

unfoldable pub run : Queue × List ℕ → List Step → Queue × List ℕ
run s [] = s
run s (e ∷ es) = run (step s e) es

-- What was enqueued, in the order of the exchanges.
abbrev pub enqueued : List Step → List ℕ
enqueued [] = []
enqueued (exchanged v ∷ es) = v ∷ enqueued es
enqueued (linked node ∷ es) = enqueued es
enqueued (dequeued ∷ es) = enqueued es

-- The contents of the `n` nodes behind node `t`.
abbrev pub contents : (ℕ → ℕ) → ℕ → ℕ → List ℕ
contents f t zero = []
contents f t (suc n) = f (suc t) ∷ contents f (suc t) n

-- What is in the queue.
abbrev pub held_by : Queue → List ℕ
held_by q = contents q.content q.tail (q.head - q.tail)

contents-set :
    (f : ℕ → ℕ) (v h t n : ℕ)
    → t + n ≡ h
    → contents (set (suc h) v f) t (suc n) ≡ contents f t n ++ (v ∷ [])
contents-set f v h t zero e =
    ap (λ x. x ∷ []) (ap (set (suc h) v f) (omega (arith, e)) ∙ set-here (suc h) v f)
contents-set f v h t (suc n) e =
    ap (λ x. x ∷ contents (set (suc h) v f) (suc t) (suc n))
      (set-there (suc h) v f (suc t) (omega (arith, e)))
    ∙ ap (λ xs. f (suc t) ∷ xs) (contents-set f v h (suc t) n (omega (arith, e)))

module _ (q : Queue) (l : IsLinked q) where
  exchange-held_by : (v : ℕ) → held_by (exchange q v) ≡ held_by q ++ (v ∷ [])
  unfolding exchange
  exchange-held_by v =
      ap (contents (set (suc q.head) v q.content) q.tail) {y = suc (q.head - q.tail)}
        (omega (arith, l.ordered))
      ∙ contents-set q.content v q.head q.tail (q.head - q.tail) (omega (arith, l.ordered))

  -- The consumer gets the node behind its own, if that is linked.
  dequeue-some :
      (n : ℕ) → q.next q.tail ≡ some n → dequeue q ≡ (some (q.content n), record q { tail = n })
  unfolding dequeue
  dequeue-some n e = rw (e, dequeue)

  dequeue-none : q.next q.tail ≡ none → dequeue q ≡ (none, q)
  unfolding dequeue
  dequeue-none e = rw (e, dequeue)

  below : (n : ℕ) → q.next q.tail ≡ some n → (q.tail < q.head) × (n ≡ suc q.tail)
  below n e = elim (l.chain q.tail (omega arith) inside) [
    | inl s ↦ (inside, some-injective n (suc q.tail) (sym e ∙ s))
    | inr (s, w) ↦ absurd (some-ne-none n (sym e ∙ s))
  ]
    where
      inside : q.tail < q.head
      inside = elim (ℕ_discrete q.tail q.head) [
        | yes i ↦ absurd (some-ne-none n (sym e ∙ ap q.next i ∙ l.last))
        | no i ↦ omega (arith, l.ordered, i)
      ]

  dequeued-IsLinked : (n : ℕ) → q.next q.tail ≡ some n → IsLinked (record q { tail = n })
  dequeued-IsLinked n e =
      let (a, b) = below n e in
      record {
        ordered = omega (arith, a, b);
        last = l.last;
        chain = λ k g h. l.chain k (omega (arith, b, g)) h;
        held = λ m p w.
            (let (c, d, f, z) = l.held m p w in (c, omega (arith, b, d, passed p z), f, z));
      }
    where
      passed : (p : ℕ) → q.next p ≡ none → q.tail ≢ p
      passed p z = λ i. some-ne-none n (sym e ∙ ap q.next i ∙ z)

  dequeued-held_by :
      (n : ℕ) → q.next q.tail ≡ some n → held_by q ≡ q.content n ∷ held_by (record q { tail = n })
  dequeued-held_by n e =
      let (a, b) = below n e in
      ap (contents q.content q.tail) {y = suc (q.head - n)} (omega (arith, a, b))
      ∙ ap (λ k. q.content k ∷ contents q.content k (q.head - n)) (sym b)

record IsQueue (sent : List ℕ) (s : Queue × List ℕ) : Type 0 where
  pub links : IsLinked s.0
  pub order : s.1 ++ held_by s.0 ≡ sent

module _ (sent : List ℕ) (q : Queue) (taken : List ℕ) (k : IsQueue sent (q, taken)) where
  exchanged-IsQueue : (v : ℕ) → IsQueue (sent ++ (v ∷ [])) (exchange q v, taken)
  exchanged-IsQueue v = record {
    links = exchange-IsLinked q k.links v;
    order =
        ap (◌++◌ taken) (exchange-held_by q k.links v)
        ∙ sym (append_assoc taken (held_by q) (v ∷ []))
        ∙ ap (λ xs. xs ++ (v ∷ [])) k.order;
  }

  linked-IsQueue : (node : ℕ) → IsQueue sent (link q node, taken)
  unfolding link
  linked-IsQueue node = record {
    links = link-IsLinked q k.links node;
    order = elim (Option-cases (q.waiting node)) [
      | inl e ↦ rw (e, link) k.order
      | inr (p, e) ↦ rw (e, link) k.order
    ];
  }

  dequeued-IsQueue : IsQueue sent (step (q, taken) dequeued)
  unfolding step
  dequeued-IsQueue = elim (Option-cases (q.next q.tail)) [
    | inl e ↦ rw (dequeue-none q k.links e) k
    | inr (n, e) ↦ rw (dequeue-some q k.links n e) (record {
      links = dequeued-IsLinked q k.links n e;
      order =
          append_assoc taken (q.content n ∷ []) (held_by (record q { tail = n }))
          ∙ ap (◌++◌ taken) (sym (dequeued-held_by q k.links n e))
          ∙ k.order;
    })
  ]

run-IsQueue :
    (es : List Step) (sent : List ℕ) (s : Queue × List ℕ)
    → IsQueue sent s
    → IsQueue (sent ++ enqueued es) (run s es)
unfolding run step
run-IsQueue [] sent s k = rw (append-nil sent) k
run-IsQueue (exchanged v ∷ es) sent s k =
    rw⁻¹ (append_assoc sent (v ∷ []) (enqueued es))
      (run-IsQueue es (sent ++ (v ∷ [])) _ (exchanged-IsQueue sent s.0 s.1 k v))
run-IsQueue (linked node ∷ es) sent s k = run-IsQueue es sent _ (linked-IsQueue sent s.0 s.1 k node)
run-IsQueue (dequeued ∷ es) sent s k = run-IsQueue es sent _ (dequeued-IsQueue sent s.0 s.1 k)

start-IsQueue : IsQueue [] (empty, [])
start-IsQueue = record { links = empty-IsLinked; order = refl }

-- For every sequence of atomic steps, in which any number of producers exchange the head and link
-- their nodes and the consumer dequeues: what the consumer has got, and behind it what the nodes
-- behind its own hold, is what was enqueued, in the order of the exchanges.
pub run_fifo :
    (es : List Step) → (run (empty, []) es).1 ++ held_by (run (empty, []) es).0 ≡ enqueued es
run_fifo es = (run-IsQueue es [] (empty, []) start-IsQueue).order

-- After any atomic steps from the empty queue, a producer that still has to link its node, behind the node `p`, finds `p`
-- undeleted: the consumer is at `p` or before it, and nothing else has been linked behind `p`.
pub run_safe :
    (es : List Step) (node p : ℕ)
    → (run (empty, []) es).0.waiting node ≡ some p
    → ((run (empty, []) es).0.tail ≤ p) × ((run (empty, []) es).0.next p ≡ none)
run_safe es node p e =
    let (a, b, c, d) = (run-IsQueue es [] (empty, []) start-IsQueue).links.held node p e in (b, d)

-- After any atomic steps from the empty queue, if the producer of the node behind the consumer's own is not waiting to link
-- it, and the queue holds something, then the next dequeue gives its first value.
pub run_progress :
    (es : List Step)
    → (run (empty, []) es).0.waiting (suc (run (empty, []) es).0.tail) ≡ none
    → (run (empty, []) es).0.tail < (run (empty, []) es).0.head
    → (dequeue (run (empty, []) es).0).0
      ≡ some ((run (empty, []) es).0.content (suc (run (empty, []) es).0.tail))
run_progress es w h = elim (links.chain (run (empty, []) es).0.tail (omega arith) h) [
  | inl e ↦ ap (λ r. r.0) (dequeue-some (run (empty, []) es).0 links _ e)
  | inr (e, f) ↦ absurd (some-ne-none _ (sym f ∙ w))
]
  where
    links : IsLinked (run (empty, []) es).0
    links = (run-IsQueue es [] (empty, []) start-IsQueue).links
