-- ===== src/Connector/Ids.antt =====
-- What an id of a connection stands for in the course of time.
use scalable_cross_platform.Prelude.{
  ℕ, ◌≡◌, ◌≢◌, refl, ap, ◌∙◌, inl, inr, Bool, true, false, Option, none, some, List, [], ◌∷◌, ◌++◌,
  ◌==◌, Bool-cases, Option-cases, All, map,
}
use scalable_cross_platform.Prelude.Table.{lookup, insert, modify}
use scalable_cross_platform.Prelude.Table.Laws.{
  Entries, lookup-Entries, erase-Entries, insert-Entries, modify-Entries,
}
use scalable_cross_platform.Prelude.Vectors.{
  get_elem?, set, get_elem?-append, get_elem?-set, get_elem?-set_other,
}
use scalable_cross_platform.Network.Threads.{select_thread}
use scalable_cross_platform.Connector.{
  Attempt, ConnectionManager, start_manager, stop_manager, next_address, try_next, async_connect,
  finish_connect, handle_connect, find_connection, send_to, receive_from, close_connection,
  connection_closed,
}

-- A step of the manager, or of the network under it.
pub data Event : Type 0 where
  start stop : Event
  connect : (connection : ℕ) (addresses : List Bool) → Event
  answer : (connection error : ℕ) → Event
  send : ℕ → List ℕ → Event
  close : ℕ → Event

unfoldable pub step : Event → ConnectionManager → Option ConnectionManager
step start m = some (start_manager m)
step stop m = some (stop_manager m)
step (connect c n) m = async_connect c n m
step (answer c e) m = handle_connect c e m
step (send id message) m = some (send_to id message m).1
step (close id) m = some (close_connection id m).1

unfoldable pub run : List Event → ConnectionManager → Option ConnectionManager
run [] m = some m
run (e ∷ es) m = elim (step e m) [ none ↦ none | some n ↦ run es n ]

-- A connection has an address, all its addresses are well formed, and the id itself is not closed.
abbrev pub IsAllowed : ℕ → Event → Type 0
IsAllowed id start = Unit
IsAllowed id stop = Unit
IsAllowed id (connect c bs) = (bs ≢ []) × All (λ b. b ≡ true) bs
IsAllowed id (answer c e) = Unit
IsAllowed id (send i message) = Unit
IsAllowed id (close i) = id ≢ i

start_manager-connections : (m : ConnectionManager) → (start_manager m).connections ≡ m.connections
unfolding start_manager
start_manager-connections m = elim (Bool-cases m.started) [
  | inl b ↦ rw (b) refl
  | inr b ↦ rw (b) refl
]

stop_manager-connections : (m : ConnectionManager) → (stop_manager m).connections ≡ m.connections
unfolding stop_manager
stop_manager-connections m = elim (Bool-cases m.started) [
  | inl b ↦ rw (b) refl
  | inr b ↦ rw (b) refl
]

send_to-connections :
    (i : ℕ) (x : List ℕ) (m : ConnectionManager) → (send_to i x m).1.connections ≡ m.connections
unfolding send_to
send_to-connections i x m = elim (Option-cases (find_connection i m)) [
  | inl e ↦ rw (e, send_to) refl
  | inr (c, e) ↦ rw (e, send_to) refl
]

-- The addresses that are left to the connections under way are well formed.
abbrev pub AreAddresses : ConnectionManager → Type 0
AreAddresses m = Entries (λ c (a : Attempt). All (λ b. b ≡ true) a.left) m.pending

start_manager-pending : (m : ConnectionManager) → AreAddresses m → AreAddresses (start_manager m)
unfolding start_manager
start_manager-pending m p = elim (Bool-cases m.started) [ inl b ↦ rw (b) p | inr b ↦ rw (b) p ]

stop_manager-pending : (m : ConnectionManager) → AreAddresses m → AreAddresses (stop_manager m)
unfolding stop_manager
stop_manager-pending m p = elim (Bool-cases m.started) [ inl b ↦ rw (b) p | inr b ↦ rw (b) p ]

send_to-pending :
    (i : ℕ) (x : List ℕ) (m : ConnectionManager) → AreAddresses m → AreAddresses (send_to i x m).1
unfolding send_to
send_to-pending i x m p = elim (Option-cases (find_connection i m)) [
  | inl e ↦ rw (e, send_to) p
  | inr (c, e) ↦ rw (e, send_to) p
]

next_address-eq : (b : Bool) (bs : List Bool) → b ≡ true → next_address (b ∷ bs) ≡ some bs
unfolding next_address
next_address-eq b bs h = rw (h) refl

module _ (id : ℕ) (o : Option ℕ) where
  abbrev Stands : ConnectionManager → Type 0
  Stands m = (get_elem? id m.connections ≡ some o) × AreAddresses m

  abbrev Goes : Option ConnectionManager → Type 0
  Goes x = (n : ConnectionManager) × (x ≡ some n) × Stands n

  async_connect-Goes :
      (c : ℕ) (bs : List Bool) (m : ConnectionManager)
      → bs ≢ []
      → All (λ b. b ≡ true) bs
      → Stands m
      → Goes (async_connect c bs m)
  unfolding async_connect
  async_connect-Goes c [] m h a g = absurd (h refl)
  async_connect-Goes c (b ∷ bs) m h a g = elim (Bool-cases m.started) [
    | inr s ↦ (m, rw (s) refl, g)
    | inl s ↦
        let t : Attempt = record {
          thread = select_thread (map (λ e. e.1.connections_count) m.threads);
          left = bs;
        } in
        (
          record m { pending = insert c t m.pending },
          rw (next_address-eq b bs a.0, async_connect) (rw (s) refl),
          (
            g.0,
            insert-Entries (λ k (v : Attempt). All (λ x. x ≡ true) v.left) c t m.pending a.1 g.1,
          ),
        )
  ]

  try_next-Goes :
      (c e : ℕ) (bs : List Bool) (m : ConnectionManager)
      → All (λ b. b ≡ true) bs
      → Stands m
      → Goes (try_next c e bs m)
  unfolding try_next
  try_next-Goes c e [] m a g = (
    _,
    refl,
    (g.0, erase-Entries (λ k (v : Attempt). All (λ x. x ≡ true) v.left) c m.pending g.1),
  )
  try_next-Goes c e (b ∷ bs) m a g = (
    record m { pending = modify c (λ (x : Attempt). record x { left = bs }) m.pending },
    rw (next_address-eq b bs a.0, try_next) refl,
    (
      g.0,
      modify-Entries (λ k (v : Attempt). All (λ x. x ≡ true) v.left) c
          (λ (x : Attempt). record x { left = bs }) m.pending (λ v p. a.1) g.1,
    ),
  )

  -- An answer may add a connection behind those that are there.
  handle_connect-Goes : (c e : ℕ) (m : ConnectionManager) → Stands m → Goes (handle_connect c e m)
  unfolding handle_connect finish_connect
  handle_connect-Goes c e m g = elim (Option-cases (lookup c m.pending)) [
    | inl x ↦ (m, rw (x, handle_connect) refl, g)
    | inr (a, x) ↦ elim (Bool-cases (e == 0)) [
      | inl b ↦ (
        finish_connect c a m,
        rw (x, handle_connect) (rw (b) refl),
        (
          get_elem?-append id o m.connections (some c ∷ []) g.0,
          erase-Entries (λ k (v : Attempt). All (λ y. y ≡ true) v.left) c m.pending g.1,
        ),
      )
      | inr b ↦
          let well =
            lookup-Entries (λ k (v : Attempt). All (λ y. y ≡ true) v.left) c a m.pending x g.1 in
          let (n, f, k) = try_next-Goes c e a.left m well g in
          (n, rw (x, handle_connect) (rw (b) f), k)
    ]
  ]

  close_connection-Stands :
      (i : ℕ) (m : ConnectionManager) → id ≢ i → Stands m → Stands (close_connection i m).1
  unfolding close_connection
  close_connection-Stands i m h g = elim (Option-cases (find_connection i m)) [
    | inl e ↦ rw (e, close_connection) g
    | inr (c, e) ↦
        rw (e, close_connection) (get_elem?-set_other id i none m.connections h ∙ g.0, g.1)
  ]

  step-Stands : (e : Event) (m : ConnectionManager) → IsAllowed id e → Stands m → Goes (step e m)
  unfolding step
  step-Stands start m h g = (
    start_manager m,
    refl,
    (ap (get_elem? id) (start_manager-connections m) ∙ g.0, start_manager-pending m g.1),
  )
  step-Stands stop m h g = (
    stop_manager m,
    refl,
    (ap (get_elem? id) (stop_manager-connections m) ∙ g.0, stop_manager-pending m g.1),
  )
  step-Stands (connect c bs) m h g = async_connect-Goes c bs m h.0 h.1 g
  step-Stands (answer c e) m h g = handle_connect-Goes c e m g
  step-Stands (send i x) m h g = (
    (send_to i x m).1,
    refl,
    (ap (get_elem? id) (send_to-connections i x m) ∙ g.0, send_to-pending i x m g.1),
  )
  step-Stands (close i) m h g = ((close_connection i m).1, refl, close_connection-Stands i m h g)

  -- Let the addresses that are left to the connections under way be well formed. Then what an id stands
  -- for, a connection or, once it was closed, none, it stands for behind any sequence of starts, stops,
  -- connects, each with an address at least and with well-formed addresses, answers, sendings and
  -- closings of other ids; and none of these fails.
  pub run-Stands :
      (es : List Event) (m : ConnectionManager)
      → All (IsAllowed id) es
      → Entries (λ c (a : Attempt). All (λ b. b ≡ true) a.left) m.pending
      → get_elem? id m.connections ≡ some o
      → (n : ConnectionManager) × (run es m ≡ some n) × (get_elem? id n.connections ≡ some o)
  unfolding run
  run-Stands [] m h p g = (m, refl, g)
  run-Stands (e ∷ es) m h p g =
      let (n, f, k) = step-Stands e m h.0 (g, p) in rw (f, run) (run-Stands es n h.1 k.1 k.0)

find_connection_of :
    (id : ℕ) (o : Option ℕ) (m : ConnectionManager)
    → get_elem? id m.connections ≡ some o
    → find_connection id m ≡ o
unfolding find_connection
find_connection_of id o m g = rw (g, find_connection) refl

-- The closing of an id that stands for a connection closes this connection and is confirmed; behind
-- it nothing is sent or received under the id, another closing is refused, and the connection counts
-- as closed.
pub close_connection_final :
    (id c : ℕ) (m : ConnectionManager) (message : List ℕ) (receive : ℕ → Option (List ℕ))
    (is_closed : ℕ → Bool)
    → get_elem? id m.connections ≡ some (some c)
    → (n : ConnectionManager) × (close_connection id m ≡ (true, n))
      × (n.closed ≡ m.closed ++ (c ∷ []))
      × (send_to id message n ≡ (false, n))
      × (receive_from receive id n ≡ none)
      × (close_connection id n ≡ (false, n))
      × (connection_closed is_closed id n ≡ true)
unfolding close_connection send_to receive_from connection_closed
close_connection_final id c m message receive is_closed g =
    let n : ConnectionManager = record m {
      closed = m.closed ++ (c ∷ []);
      connections = set id none m.connections;
    } in
    let found = find_connection_of id (some c) m g in
    let lost = find_connection_of id none n (get_elem?-set id none (some c) m.connections g) in
    (
      n,
      rw (found, close_connection) refl,
      refl,
      rw (lost, send_to) refl,
      rw (lost, receive_from) refl,
      rw (lost, close_connection) refl,
      rw (lost, connection_closed) refl,
    )
