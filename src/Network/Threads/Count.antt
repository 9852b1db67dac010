-- ===== src/Network/Threads/Count.antt =====
-- The counts of the network threads.
use scalable_cross_platform.Prelude.{
  ℕ, ◌+◌, ◌^◌, ◌%◌, ◌≤◌, ◌<◌, ◌≡◌, ◌≢◌, refl, sym, ap, ◌∙◌, ◌⊎◌, inl, inr, Bool, none, some, List,
  [], ◌∷◌, ◌++◌, Bool-cases, length, length-append, arith, sub_u32,
}
use scalable_cross_platform.Prelude.Table.{lookup, modify}
use scalable_cross_platform.Prelude.Table.Laws.{lookup-modify, lookup-modify_other}
use scalable_cross_platform.Network.Threads.{
  Thread, add_connection, start_all, add_new_connections, keep_sending, decrement, Threads,
  counted_thread, drop_ended, update_thread,
}

-- The count is that of the connections, the new ones included.
abbrev pub IsCounted : Thread → Type 0
IsCounted t =
    (t.connections_count ≡ length t.connections + length t.new_connections)
    × (t.connections_count < 2 ^ 32)

-- A connection more is counted, as long as the count does not come to the end of 32 bits.
pub add_connection-IsCounted :
    (c : ℕ) (t : Thread)
    → t.connections_count + 1 < 2 ^ 32
    → IsCounted t
    → IsCounted (add_connection c t)
unfolding add_connection
add_connection-IsCounted c t h p =
    let e = length-append t.new_connections (c ∷ []) in
    (omega (arith, p.0, p.1, h, e), omega (arith, p.1, h))

module _ (is_closed : ℕ → Bool) where
  start_all-count :
      (cs : List ℕ) (t : Thread)
      → t.connections_count ≡ length t.connections + length cs
      → t.connections_count < 2 ^ 32
      → ((start_all is_closed cs t).connections_count
          ≡ length (start_all is_closed cs t).connections)
        × ((start_all is_closed cs t).connections_count < 2 ^ 32)
  unfolding start_all
  start_all-count [] t h w = (omega (arith, h), w)
  start_all-count (c ∷ cs) t h w = elim (Bool-cases (is_closed c)) [
    | inl b ↦
        rw (b, start_all)
          (start_all-count cs (record t { connections_count = sub_u32 t.connections_count 1 })
            (omega (arith, h, w)) (omega (arith, h, w)))
    | inr b ↦
        let e = length-append t.connections (c ∷ []) in
        rw (b, start_all)
          (start_all-count cs (record t { connections = t.connections ++ (c ∷ []) })
            (omega (arith, h, e)) w)
  ]

module _ (end_sendings : ℕ → Bool) where
  decrement-count :
      (cs : List ℕ) (count : ℕ)
      → length cs ≤ count
      → count < 2 ^ 32
      → decrement end_sendings cs count + length cs ≡ count + length (keep_sending end_sendings cs)
  unfolding decrement keep_sending
  decrement-count [] count h w = refl
  decrement-count (c ∷ cs) count h w = elim (Bool-cases (end_sendings c)) [
    | inl b ↦ rw (b) (omega (arith, decrement-count cs count (omega (arith, h)) w))
    | inr b ↦ rw (b) (
        omega (
          arith,
          h,
          w,
          decrement-count cs (sub_u32 count 1) (omega (arith, h, w)) (omega (arith, h, w)),
        ))
  ]

  -- On any count, modulo 2 ^ 32.
  decrement_wraps :
      (cs : List ℕ) (count : ℕ)
      → count < 2 ^ 32
      → (decrement end_sendings cs count + length cs) % 2 ^ 32
        ≡ (count + length (keep_sending end_sendings cs)) % 2 ^ 32
  unfolding decrement keep_sending
  decrement_wraps [] count w = refl
  decrement_wraps (c ∷ cs) count w = elim (Bool-cases (end_sendings c)) [
    | inl b ↦ rw (b) (omega (arith, decrement_wraps cs count w))
    | inr b ↦ rw (b) (omega (arith, w, decrement_wraps cs (sub_u32 count 1) (omega (arith, w))))
  ]

  keep_sending-length : (cs : List ℕ) → length (keep_sending end_sendings cs) ≤ length cs
  unfolding keep_sending
  keep_sending-length [] = omega arith
  keep_sending-length (c ∷ cs) = elim (Bool-cases (end_sendings c)) [
    | inl b ↦ rw (b) (omega (arith, keep_sending-length cs))
    | inr b ↦ rw (b) (omega (arith, keep_sending-length cs))
  ]

module _ (is_closed end_sendings : ℕ → Bool) (i : ℕ) (p : Threads) (t : Thread) where
  abbrev behind : Thread
  behind = add_new_connections is_closed t

  own_counted : (p.captured ≡ none) ⊎ (p.captured ≡ some i) → counted_thread i p.captured ≡ i
  unfolding counted_thread
  own_counted (inl x) = ap (counted_thread i) x
  own_counted (inr x) = ap (counted_thread i) x

  -- If the decisions of a thread count down its own count, because it was the first to be updated or
  -- nobody was, and its count is right, then an update goes through, and behind it the count is right
  -- again: it is that of the connections that are kept.
  pub update_thread-IsCounted :
      (p.captured ≡ none) ⊎ (p.captured ≡ some i)
      → lookup i p.threads ≡ some t
      → IsCounted t
      → (q : Threads) × (u : Thread) × (update_thread is_closed end_sendings i p ≡ some q)
        × (lookup i q.threads ≡ some u)
        × IsCounted u
        × (u.connections ≡ keep_sending end_sendings (add_new_connections is_closed t).connections)
        × (u.new_connections ≡ [])
  unfolding update_thread add_new_connections drop_ended
  update_thread-IsCounted own e h =
      let u = behind in
      let (c, w) = start_all-count is_closed t.new_connections t h.0 h.1 in
      let d = decrement-count end_sendings u.connections u.connections_count (omega (arith, c)) w in
      let k = record u { connections = keep_sending end_sendings u.connections } in
      let f = lookup-modify i (λ (x : Thread). k) t p.threads e in
      let g =
        lookup-modify i
          (λ (x : Thread). record x {
            connections_count = decrement end_sendings u.connections x.connections_count;
          })
          k (modify i (λ (x : Thread). k) p.threads) f in
      rw (e, update_thread)
        (rw (own_counted own) (
          _,
          _,
          refl,
          g,
          (
            omega (arith, c, d),
            omega (arith, c, d, w, keep_sending-length end_sendings u.connections),
          ),
          refl,
          refl,
        ))

  -- But if the decisions count down another thread's count, then an update of a thread whose count is
  -- right leaves its count at the number of connections that it had behind the start of the new ones,
  -- however many of them it has dropped; and the number of those that it has dropped is taken off the
  -- other's count, which wraps at 32 bits.
  pub update_thread-stolen :
      (j : ℕ) (s : Thread)
      → p.captured ≡ some j
      → i ≢ j
      → lookup i p.threads ≡ some t
      → lookup j p.threads ≡ some s
      → IsCounted t
      → s.connections_count < 2 ^ 32
      → (q : Threads) × (u v : Thread) × (update_thread is_closed end_sendings i p ≡ some q)
        × (lookup i q.threads ≡ some u)
        × (lookup j q.threads ≡ some v)
        × (u.connections ≡ keep_sending end_sendings (add_new_connections is_closed t).connections)
        × (u.connections_count ≡ length (add_new_connections is_closed t).connections)
        × (v.connections ≡ s.connections)
        × ((v.connections_count + length (add_new_connections is_closed t).connections) % 2 ^ 32
            ≡ (s.connections_count + length u.connections) % 2 ^ 32)
  unfolding update_thread drop_ended counted_thread add_new_connections
  update_thread-stolen j s x h e f n w =
      let u = behind in
      let k = record u { connections = keep_sending end_sendings u.connections } in
      let dropped : Thread → Thread = λ (x : Thread). record x {
        connections_count = decrement end_sendings u.connections x.connections_count;
      } in
      let kept = modify i (λ (x : Thread). k) p.threads in
      let a =
        lookup-modify_other i j dropped kept h
        ∙ lookup-modify i (λ (x : Thread). k) t p.threads e in
      let b =
        lookup-modify j dropped s kept
          (lookup-modify_other j i (λ (x : Thread). k) p.threads (λ g. h (sym g)) ∙ f) in
      rw (e, update_thread)
        (rw (x, counted_thread)
          (
            _,
            _,
            _,
            refl,
            a,
            b,
            refl,
            (start_all-count is_closed t.new_connections t n.0 n.1).0,
            refl,
            decrement_wraps end_sendings u.connections s.connections_count w,
          ))
