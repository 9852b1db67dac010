-- ===== src/Connector/Tests.antt =====
-- Two connections: the second tries three addresses, the last of which answers.
use scalable_cross_platform.Prelude.{
  ◌≡◌, refl, ap, length, true, false, none, some, List, [], ◌∷◌, ◌++◌, arith,
}
use scalable_cross_platform.Prelude.Table.{lookup}
use scalable_cross_platform.Prelude.Vectors.{get_elem?}
use scalable_cross_platform.Network.Threads.{new_thread}
use scalable_cross_platform.Connector.{
  ConnectionManager, send_to, receive_from, close_connection, connection_closed,
}
use scalable_cross_platform.Connector.Ids.{
  Event, start, stop, connect, answer, send, close, run, run-Stands, close_connection_final,
}
use scalable_cross_platform.Connector.Dial.{dial, verdict, dial_ends}

abbrev client : ConnectionManager
client = record {
  started = true;
  threads = (0, new_thread) ∷ (1, new_thread) ∷ [];
  connections = some 31 ∷ [];
  pending = (32, record { thread = 1; left = true ∷ true ∷ [] }) ∷ [];
  callbacks = [];
  sent = [];
  closed = [];
}

abbrev day : List Event
day =
    connect 33 (true ∷ true ∷ [])
    ∷ answer 32 111
    ∷ answer 33 0
    ∷ send 0 (5 ∷ 6 ∷ [])
    ∷ close 1
    ∷ stop
    ∷ start
    ∷ []

run-Stands_example :
    (n : ConnectionManager) × (run day client ≡ some n)
    × (get_elem? 0 n.connections ≡ some (some 31))
run-Stands_example =
    run-Stands 0 (some 31) day client
      (
        ((λ e. absurd (omega (arith, ap length e))), (refl, (refl, tt))),
        (tt, (tt, (tt, (ground arith, (tt, (tt, tt)))))),
      )
      ((refl, (refl, tt)), tt) (unfold get_elem? in refl)

close_connection_final_example :
    (n : ConnectionManager) × (close_connection 0 client ≡ (true, n))
    × (n.closed ≡ [] ++ (31 ∷ []))
    × (send_to 0 (7 ∷ []) n ≡ (false, n))
    × (receive_from (λ c. some (c ∷ [])) 0 n ≡ none)
    × (close_connection 0 n ≡ (false, n))
    × (connection_closed (λ c. false) 0 n ≡ true)
close_connection_final_example =
    close_connection_final 0 31 client (7 ∷ []) (λ c. some (c ∷ [])) (λ c. false)
      (unfold get_elem? in refl)

dial_ends_example :
    (n : ConnectionManager) × (dial 32 (111 ∷ 0 ∷ 0 ∷ []) client ≡ some n)
    × (n.callbacks ≡ [] ++ (verdict 1 111 (111 ∷ 0 ∷ 0 ∷ []) ∷ []))
    × (lookup 32 n.pending ≡ none)
dial_ends_example =
    dial_ends 32 111 (0 ∷ 0 ∷ []) client (record { thread = 1; left = true ∷ true ∷ [] })
      (unfold lookup in refl) refl (refl, (refl, tt))
