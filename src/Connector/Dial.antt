-- ===== src/Connector/Dial.antt =====
-- A connection under way comes to an end.
use scalable_cross_platform.Prelude.{
  ℕ, ◌≡◌, refl, ap, ◌∙◌, inl, inr, Bool, true, false, Option, none, some, List, [], ◌∷◌, ◌++◌,
  length, ◌==◌, if◌then◌else◌, Bool-cases, All, arith,
}
use scalable_cross_platform.Prelude.Table.{lookup, erase, modify}
use scalable_cross_platform.Prelude.Table.Laws.{lookup-modify, lookup-erase}
use scalable_cross_platform.Connector.{
  Outcome, connected, failed, Attempt, ConnectionManager, next_address, try_next, finish_connect,
  handle_connect,
}

-- The answers to one connection, one after the other.
unfoldable pub dial : ℕ → List ℕ → ConnectionManager → Option ConnectionManager
dial connection [] m = some m
dial connection (error ∷ errors) m = elim (handle_connect connection error m) [
  | none ↦ none
  | some n ↦ dial connection errors n
]

-- The first answer that is no error, or the last error.
unfoldable pub verdict : ℕ → ℕ → List ℕ → Outcome
verdict id error [] = failed error
verdict id error (x ∷ xs) = if x == 0 then connected id else verdict id x xs

dial-done :
    (c : ℕ) (errors : List ℕ) (m : ConnectionManager)
    → lookup c m.pending ≡ none
    → dial c errors m ≡ some m
unfolding dial handle_connect
dial-done c [] m h = refl
dial-done c (x ∷ xs) m h =
    let e : handle_connect c x m ≡ some m = rw (h, handle_connect) refl in
    rw (e, dial) (dial-done c xs m h)

abbrev pub AllTrue : List Bool → Type 0
AllTrue bs = All (λ b. b ≡ true) bs

module _ (c x : ℕ) (m : ConnectionManager) (a : Attempt) (h : lookup c m.pending ≡ some a) where
  connect_succeeds : (x == 0) ≡ true → handle_connect c x m ≡ some (finish_connect c a m)
  unfolding handle_connect
  connect_succeeds b = rw (h, handle_connect) (rw (b) refl)

  connect_next : (x == 0) ≡ false → handle_connect c x m ≡ try_next c x a.left m
  unfolding handle_connect
  connect_next b = rw (h, handle_connect) (rw (b) refl)

pub try_next-eq :
    (c x : ℕ) (b : Bool) (bs : List Bool) (m : ConnectionManager)
    → b ≡ true
    → try_next c x (b ∷ bs) m
      ≡ some (record m { pending = modify c (λ (y : Attempt). record y { left = bs }) m.pending })
unfolding try_next next_address
try_next-eq c x b bs m h = rw (h) refl

abbrev Ended : ℕ → ConnectionManager → Outcome → Option ConnectionManager → Type 0
Ended c m v o =
    (n : ConnectionManager) × (o ≡ some n)
    × (n.callbacks ≡ m.callbacks ++ (v ∷ []))
    × (lookup c n.pending ≡ none)

-- An answer behind which nothing more comes.
nothing_more :
    (c x : ℕ) (xs : List ℕ) (v : Outcome) (m : ConnectionManager)
    → Ended c m v (handle_connect c x m)
    → Ended c m v (dial c (x ∷ xs) m)
unfolding dial
nothing_more c x xs v m h = let (n, e, f, g) = h in (n, rw (e, dial) (dial-done c xs n g), f, g)

succeeds_now :
    (c x : ℕ) (xs : List ℕ) (m : ConnectionManager) (a : Attempt)
    → lookup c m.pending ≡ some a
    → (x == 0) ≡ true
    → Ended c m (connected (length m.connections)) (dial c (x ∷ xs) m)
unfolding finish_connect
succeeds_now c x xs m a h b =
    nothing_more c x xs (connected (length m.connections)) m
      (finish_connect c a m, connect_succeeds c x m a h b, refl, lookup-erase c m.pending)

fails_now :
    (c x : ℕ) (m : ConnectionManager) (a : Attempt)
    → lookup c m.pending ≡ some a
    → (x == 0) ≡ false
    → a.left ≡ []
    → Ended c m (failed x) (dial c (x ∷ []) m)
unfolding try_next
fails_now c x m a h b l = nothing_more c x [] (failed x) m (
  record m { pending = erase c m.pending; callbacks = m.callbacks ++ (failed x ∷ []) },
  connect_next c x m a h b ∙ ap (λ bs. try_next c x bs m) l,
  refl,
  lookup-erase c m.pending,
)

goes_on :
    (c x : ℕ) (xs : List ℕ) (m n : ConnectionManager)
    → handle_connect c x m ≡ some n
    → dial c (x ∷ xs) m ≡ dial c xs n
unfolding dial
goes_on c x xs m n e = rw (e, dial) refl

-- The answers to an attempt with these addresses left.
dial_left :
    (c x : ℕ) (xs : List ℕ) (bs : List Bool) (m : ConnectionManager) (a : Attempt)
    → lookup c m.pending ≡ some a
    → a.left ≡ bs
    → length xs ≡ length bs
    → AllTrue bs
    → Ended c m (verdict (length m.connections) x (x ∷ xs)) (dial c (x ∷ xs) m)
unfolding verdict
dial_left c x [] [] m a h l k g = elim (Bool-cases (x == 0)) [
  | inl b ↦ rw (b) (succeeds_now c x [] m a h b)
  | inr b ↦ rw (b) (fails_now c x m a h b l)
]
dial_left c x [] (t ∷ bs) m a h l k g = absurd (omega (arith, k))
dial_left c x (y ∷ ys) [] m a h l k g = absurd (omega (arith, k))
dial_left c x (y ∷ ys) (t ∷ bs) m a h l k g = elim (Bool-cases (x == 0)) [
  | inl b ↦ rw (b) (succeeds_now c x (y ∷ ys) m a h b)
  | inr b ↦
      let less : Attempt → Attempt = λ (v : Attempt). record v { left = bs } in
      let n : ConnectionManager = record m { pending = modify c less m.pending } in
      let e : handle_connect c x m ≡ some n =
        connect_next c x m a h b ∙ ap (λ v. try_next c x v m) l ∙ try_next-eq c x t bs m g.0 in
      let (o, f, d, p) =
        dial_left c y ys bs n (less a) (lookup-modify c less a m.pending h) refl (omega (arith, k))
          g.1 in
      rw (b) (o, goes_on c x (y ∷ ys) m n e ∙ f, d, p)
]

-- A connection that is under way, with an answer for each of the addresses that are not tried yet, all
-- of which are well formed, comes to its end without a failure: the callback is called exactly once,
-- with the id that the connection gets, which is the number of ids given before, if an address answers
-- without an error, and else with the last error; and the connection is not under way any more.
pub dial_ends :
    (c x : ℕ) (xs : List ℕ) (m : ConnectionManager) (a : Attempt)
    → lookup c m.pending ≡ some a
    → length xs ≡ length a.left
    → All (λ b. b ≡ true) a.left
    → (n : ConnectionManager) × (dial c (x ∷ xs) m ≡ some n)
      × (n.callbacks ≡ m.callbacks ++ (verdict (length m.connections) x (x ∷ xs) ∷ []))
      × (lookup c n.pending ≡ none)
dial_ends c x xs m a h l g = dial_left c x xs a.left m a h refl l g
