-- ===== src/Concurrency/Mpsc.antt =====
-- `MPSCQueueNonIntrusive` of Connection/Connection/Concurrency/Include/Public/MPSCQueue.h: many
-- threads enqueue, one dequeues. Each atomic operation is a step, in one order for all threads. A
-- node is named by its place in the order of the exchanges, and node 0 is the constructor's.
pub mod Links
pub mod Fifo
mod Tests
use scalable_cross_platform.Prelude.{
  ℕ, zero, suc, Option, none, some, List, [], ◌∷◌, ◌++◌, ◌==◌, if◌then◌else◌,
}

-- One place of memory is written.
unfoldable pub set {ℓ} : {A : Type ℓ} → ℕ → A → (ℕ → A) → ℕ → A
set k v f j = if j == k then v else f j

-- `next` and `data` are the fields of the nodes. `waiting n` is the local variable `prevHead` of a
-- producer that has exchanged the head for its node `n` and has not yet linked it.
pub record Queue : Type 0 where
  pub next : ℕ → Option ℕ
  pub content : ℕ → ℕ
  pub head : ℕ
  pub tail : ℕ
  pub waiting : ℕ → Option ℕ

-- The constructor.
abbrev pub empty : Queue
empty = record { next = λ n. none; content = λ n. 0; head = 0; tail = 0; waiting = λ n. none }

-- `Enqueue` up to the exchange.
unfoldable pub exchange : Queue → ℕ → Queue
exchange q value = record {
  next = set (suc q.head) none q.next;
  content = set (suc q.head) value q.content;
  head = suc q.head;
  tail = q.tail;
  waiting = set (suc q.head) (some q.head) q.waiting;
}

-- The end of `Enqueue`, in the producer of `node`.
unfoldable pub link : Queue → ℕ → Queue
link q node = elim (q.waiting node) [
  | none ↦ q
  | some prev_head ↦ record q {
    next = set prev_head (some node) q.next;
    waiting = set node none q.waiting;
  }
]

-- `Dequeue`: `none` is the result `false`.
unfoldable pub dequeue : Queue → Option ℕ × Queue
dequeue q = elim (q.next q.tail) [
  | none ↦ (none, q)
  | some n ↦ (some (q.content n), record q { tail = n })
]
