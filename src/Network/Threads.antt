-- ===== src/Network/Threads.antt =====
-- Connection/Connection/Network/Include/Private/NetworkThread.h: which connections a network thread
-- holds, and how it counts them; and the choice of a thread in
-- BaseServer/BaseServer/Network/Include/Private/Acceptor.h. A connection is an id. The steps of
-- several threads come in one order.
pub mod Count
pub mod Select
mod Tests
use scalable_cross_platform.Prelude.{
  ℕ, ◌+◌, Bool, true, false, not, Option, none, some, List, [], ◌∷◌, ◌++◌, ltb, if◌then◌else◌,
  add_u32, sub_u32,
}
use scalable_cross_platform.Prelude.Table.{lookup, modify}

pub record Thread : Type 0 where
  pub connections : List ℕ
  pub new_connections : List ℕ
  pub connections_count : ℕ

unfoldable pub new_thread : Thread
new_thread = record { connections = []; new_connections = []; connections_count = 0 }

-- `AddConnection`.
unfoldable pub add_connection : ℕ → Thread → Thread
add_connection c t = record t {
  connections_count = add_u32 t.connections_count 1;
  new_connections = t.new_connections ++ (c ∷ []);
}

-- The loop of `AddNewConnections`, where `is_closed` is what `IsClosed` says behind `Start`.
unfoldable pub start_all : (ℕ → Bool) → List ℕ → Thread → Thread
start_all is_closed [] t = t
start_all is_closed (c ∷ cs) t = start_all is_closed cs (
    if is_closed c
    then record t { connections_count = sub_u32 t.connections_count 1 }
    else record t { connections = t.connections ++ (c ∷ []) })

unfoldable pub add_new_connections : (ℕ → Bool) → Thread → Thread
add_new_connections is_closed t = record (start_all is_closed t.new_connections t) {
  new_connections = [];
}

-- What `remove_if` keeps, and how often `removeDecision` decrements a count. `end_sendings` is what
-- `EndSendings` says.
unfoldable pub keep_sending : (ℕ → Bool) → List ℕ → List ℕ
keep_sending end_sendings [] = []
keep_sending end_sendings (c ∷ cs) =
    let rest = keep_sending end_sendings cs in if end_sendings c then c ∷ rest else rest

unfoldable pub decrement : (ℕ → Bool) → List ℕ → ℕ → ℕ
decrement end_sendings [] count = count
decrement end_sendings (c ∷ cs) count =
    decrement end_sendings cs (if end_sendings c then count else sub_u32 count 1)

-- All threads, and the one whose `this` the static `removeDecision` has captured.
pub record Threads : Type 0 where
  pub threads : List (ℕ × Thread)
  pub captured : Option ℕ

-- The static object keeps the `this` of the thread that comes first to its definition.
unfoldable pub counted_thread : ℕ → Option ℕ → ℕ
counted_thread i none = i
counted_thread i (some j) = j

-- The `erase` of `Update`, where the thread `i` is `t` behind `AddNewConnections`.
unfoldable pub drop_ended : (ℕ → Bool) → ℕ → ℕ → Thread → Threads → Threads
drop_ended end_sendings i counted t p = record {
  threads =
      modify counted
        (λ (x : Thread). record x {
          connections_count = decrement end_sendings t.connections x.connections_count;
        })
        (modify i
          (λ (x : Thread). record t { connections = keep_sending end_sendings t.connections })
          p.threads);
  captured = some counted;
}

-- `Update` of the thread `i`.
unfoldable pub update_thread : (ℕ → Bool) → (ℕ → Bool) → ℕ → Threads → Option Threads
update_thread is_closed end_sendings i p = elim (lookup i p.threads) [
  | none ↦ none
  | some t ↦
      some (
        drop_ended end_sendings i (counted_thread i p.captured) (add_new_connections is_closed t) p)
]

-- The loop of `SelectThreadWithMinConnections`, from the thread `i` on, where `least` is the count of
-- the thread `min`.
unfoldable pub select_from : ℕ → ℕ → ℕ → List ℕ → ℕ
select_from i min least [] = min
select_from i min least (c ∷ cs) =
    if ltb c least then select_from (i + 1) i c cs else select_from (i + 1) min least cs

-- `SelectThreadWithMinConnections`, of the counts of the threads.
unfoldable pub select_thread : List ℕ → ℕ
select_thread [] = 0
select_thread (c ∷ cs) = select_from 1 0 c cs
