-- ===== src/Network/Threads/Tests.antt =====
-- Three threads, one of which holds two connections and gets a third.
use scalable_cross_platform.Prelude.{
  ℕ, ◌+◌, ◌%◌, ◌-◌, ◌^◌, ◌≡◌, refl, length, inr, Bool, some, [], ◌∷◌, ◌==◌, not, arith,
}
use scalable_cross_platform.Prelude.Table.{lookup}
use scalable_cross_platform.Network.Threads.{
  Thread, add_connection, add_new_connections, keep_sending, decrement, Threads, update_thread,
  select_thread,
}
use scalable_cross_platform.Network.Threads.Count.{
  IsCounted, add_connection-IsCounted, update_thread-IsCounted, update_thread-stolen,
}
use scalable_cross_platform.Network.Threads.Select.{IsFirstLeast, select_thread-IsFirstLeast}

abbrev busy : Thread
busy = record { connections = 11 ∷ 12 ∷ []; new_connections = 13 ∷ []; connections_count = 3 }

abbrev idle : Thread
idle = record { connections = []; new_connections = []; connections_count = 0 }

abbrev pool : Threads
pool = record { threads = (0, idle) ∷ (1, busy) ∷ []; captured = some 1 }

abbrev crossed : Threads
crossed = record { threads = (0, idle) ∷ (1, busy) ∷ []; captured = some 0 }

abbrev is_closed : ℕ → Bool
is_closed c = c == 13

abbrev end_sendings : ℕ → Bool
end_sendings c = not (c == 11)

add_connection-IsCounted_example : IsCounted (add_connection 17 busy)
add_connection-IsCounted_example =
    add_connection-IsCounted 17 busy (omega arith) (omega arith, omega arith)

update_thread-IsCounted_example :
    (q : Threads) × (u : Thread) × (update_thread is_closed end_sendings 1 pool ≡ some q)
    × (lookup 1 q.threads ≡ some u)
    × IsCounted u
    × (u.connections ≡ keep_sending end_sendings (add_new_connections is_closed busy).connections)
    × (u.new_connections ≡ [])
update_thread-IsCounted_example =
    update_thread-IsCounted is_closed end_sendings 1 pool busy (inr refl) (unfold lookup in refl)
      (omega arith, omega arith)

update_thread-stolen_example :
    (q : Threads) × (u v : Thread) × (update_thread is_closed end_sendings 1 crossed ≡ some q)
    × (lookup 1 q.threads ≡ some u)
    × (lookup 0 q.threads ≡ some v)
    × (u.connections ≡ keep_sending end_sendings (add_new_connections is_closed busy).connections)
    × (u.connections_count ≡ length (add_new_connections is_closed busy).connections)
    × (v.connections ≡ [])
    × ((v.connections_count + length (add_new_connections is_closed busy).connections) % 2 ^ 32
        ≡ (0 + length u.connections) % 2 ^ 32)
update_thread-stolen_example =
    update_thread-stolen is_closed end_sendings 1 crossed busy 0 idle refl (ground arith)
      (unfold lookup in refl) (unfold lookup in refl) (omega arith, omega arith) (omega arith)

-- The count of the other thread then wraps.
stolen_wraps : decrement end_sendings (11 ∷ 12 ∷ []) 0 ≡ 2 ^ 32 - 1
unfolding decrement
stolen_wraps = refl

select_thread-IsFirstLeast_example :
    (least : ℕ) × IsFirstLeast (4 ∷ 2 ∷ 2 ∷ []) (select_thread (4 ∷ 2 ∷ 2 ∷ [])) least
select_thread-IsFirstLeast_example = select_thread-IsFirstLeast 4 (2 ∷ 2 ∷ [])
