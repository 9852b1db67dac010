-- ===== src/Connector.antt =====
-- Connector/Connector/Network/Source/ConnectionManager.cpp: the connections of a client. What a step
-- does on whichever thread is one step here. The calls of a connection's `Send` and `Close`, and of
-- the callbacks, are kept in their order; what a connection gives to `Receive` and `IsClosed` is an
-- input.
pub mod Ids
pub mod Dial
mod Tests
use scalable_cross_platform.Prelude.{
  ℕ, Bool, true, false, not, Option, none, some, List, [], ◌∷◌, ◌++◌, length, map, ◌==◌,
  if◌then◌else◌,
}
use scalable_cross_platform.Prelude.Table.{lookup, insert, erase, modify}
use scalable_cross_platform.Prelude.Vectors.{get_elem?, set}
use scalable_cross_platform.Network.Threads.{Thread, add_connection, select_thread}

-- What `onConnectCallback` is called with: no error and the id, or the error.
pub data Outcome : Type 0 where
  connected failed : ℕ → Outcome

-- What `async_connect` holds until it is done: the thread, and for each of the addresses that are left
-- whether `address::from_string` takes it.
pub record Attempt : Type 0 where
  pub thread : ℕ
  pub left : List Bool

-- `pending` are the connections under way, by the connection.
pub record ConnectionManager : Type 0 where
  pub started : Bool
  pub threads : List (ℕ × Thread)
  pub connections : List (Option ℕ)
  pub pending : List (ℕ × Attempt)
  pub callbacks : List Outcome
  pub sent : List (ℕ × List ℕ)
  pub closed : List ℕ

-- `Start` and `Stop`, as far as the state goes.
unfoldable pub start_manager : ConnectionManager → ConnectionManager
start_manager m = if m.started then m else record m { started = true }

unfoldable pub stop_manager : ConnectionManager → ConnectionManager
stop_manager m = if not m.started then m else record m { started = false }

-- The private `AsyncConnect` for the addresses that are left: those behind the first. The first has to
-- be there, and `address::from_string` throws if it is malformed.
unfoldable pub next_address : List Bool → Option (List Bool)
next_address [] = none
next_address (is_address ∷ addresses) = if is_address then some addresses else none

-- `AsyncConnect`.
unfoldable pub async_connect : ℕ → List Bool → ConnectionManager → Option ConnectionManager
async_connect connection addresses m =
    if not m.started then some m else (elim (next_address addresses) [
      | none ↦ none
      | some left ↦ some (record m {
        pending =
            insert connection
              (record {
                thread = select_thread (map (λ e. e.1.connections_count) m.threads);
                left = left;
              })
              m.pending;
      })
    ])

-- The part of `HandleConnect` without an error.
unfoldable pub finish_connect : ℕ → Attempt → ConnectionManager → ConnectionManager
finish_connect connection a m = record m {
  threads = modify a.thread (add_connection connection) m.threads;
  connections = m.connections ++ (some connection ∷ []);
  pending = erase connection m.pending;
  callbacks = m.callbacks ++ (connected (length m.connections) ∷ []);
}

-- The part of `HandleConnect` with an error, for the addresses that are left.
unfoldable pub try_next : ℕ → ℕ → List Bool → ConnectionManager → Option ConnectionManager
try_next connection error [] m = some (record m {
  pending = erase connection m.pending;
  callbacks = m.callbacks ++ (failed error ∷ []);
})
try_next connection error (b ∷ bs) m = elim (next_address (b ∷ bs)) [
  | none ↦ none
  | some left ↦ some (record m {
    pending = modify connection (λ (x : Attempt). record x { left = left }) m.pending;
  })
]

-- `HandleConnect`, with 0 for no error.
unfoldable pub handle_connect : ℕ → ℕ → ConnectionManager → Option ConnectionManager
handle_connect connection error m = elim (lookup connection m.pending) [
  | none ↦ some m
  | some a ↦
      if error == 0
      then some (finish_connect connection a m)
      else try_next connection error a.left m
]

-- The connection of an id: `at` throws outside, and a connection that was closed is null.
unfoldable pub find_connection : ℕ → ConnectionManager → Option ℕ
find_connection id m = elim (get_elem? id m.connections) [ none ↦ none | some o ↦ o ]

unfoldable pub send_to : ℕ → List ℕ → ConnectionManager → Bool × ConnectionManager
send_to id message m = elim (find_connection id m) [
  | none ↦ (false, m)
  | some c ↦ (true, record m { sent = m.sent ++ ((c, message) ∷ []) })
]

-- `ReceiveFrom`, where `receive` is what `Receive` gives.
unfoldable pub receive_from : (ℕ → Option (List ℕ)) → ℕ → ConnectionManager → Option (List ℕ)
receive_from receive id m = elim (find_connection id m) [ none ↦ none | some c ↦ receive c ]

unfoldable pub close_connection : ℕ → ConnectionManager → Bool × ConnectionManager
close_connection id m = elim (find_connection id m) [
  | none ↦ (false, m)
  | some c ↦
      (true, record m { closed = m.closed ++ (c ∷ []); connections = set id none m.connections })
]

-- `ConnectionClosed`, where `is_closed` is what `IsClosed` says.
unfoldable pub connection_closed : (ℕ → Bool) → ℕ → ConnectionManager → Bool
connection_closed is_closed id m = elim (find_connection id m) [
  | none ↦ true
  | some c ↦ is_closed c
]
