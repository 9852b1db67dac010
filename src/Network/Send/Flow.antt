-- ===== src/Network/Send/Flow.antt =====
-- Nothing that is to be sent is lost, doubled or put out of order, and the sender never stalls.
use scalable_cross_platform.Prelude.{
  ℕ, ◌-◌, ◌≤◌, ◌≡◌, refl, sym, ap, ◌∙◌, ◌⊎◌, inl, inr, true, false, none, some, List, [], ◌∷◌, ◌++◌,
  append-nil, append_assoc, arith, length, take, ◌==◌, if◌then◌else◌, Bool-cases, All, flatten, map,
  take-append-drop, nil_of_length, ==_iff,
}
use mathlib.Core.Path.{subst}
use mathlib.Core.Option.{some-injective, some-ne-none}
use scalable_cross_platform.Network.Buffer.{
  NetworkByteBuffer, IsSound, active_size, advance_read, active_size-eq,
}
use scalable_cross_platform.Network.Receive.Active.{
  active, active-advance, advance_read-IsSound, length-active,
}
use scalable_cross_platform.Network.Send.{
  Sender, async_process_sending_queue, enqueue_byte_buffer, next_buffer, taken, write_handler,
}

abbrev pub pending : List NetworkByteBuffer → List ℕ
pending buffers = flatten (map active buffers)

-- What a sender has in flight is the front of its queue. With nothing in flight, its queue is empty
-- or it has met an error.
pub data IsBusy (c : Sender) : Type 0 where
  writing :
      (b : NetworkByteBuffer) (rest : List NetworkByteBuffer)
      → c.buffers ≡ b ∷ rest
      → c.processing ≡ true
      → c.in_flight ≡ some (active b)
      → IsBusy c
  quiet : c.buffers ≡ [] → c.processing ≡ false → c.in_flight ≡ none → IsBusy c
  failed : c.closed ≡ true → c.processing ≡ true → c.in_flight ≡ none → IsBusy c

-- `sent` are the bytes of all messages that were to be sent.
pub record IsFlowing (sent : List ℕ) (c : Sender) : Type 0 where
  pub whole : c.wire ++ pending c.buffers ≡ sent
  pub sound : All IsSound c.buffers
  pub busy : IsBusy c

pending-snoc :
    (bs : List NetworkByteBuffer) (b : NetworkByteBuffer)
    → pending (bs ++ (b ∷ [])) ≡ pending bs ++ active b
pending-snoc [] b = append-nil (active b)
pending-snoc (a ∷ bs) b =
    ap (◌++◌ (active a)) (pending-snoc bs b) ∙ sym (append_assoc (active a) (pending bs) (active b))

All-snoc :
    (bs : List NetworkByteBuffer) (b : NetworkByteBuffer)
    → All IsSound bs
    → IsSound b
    → All IsSound (bs ++ (b ∷ []))
All-snoc [] b h s = (s, tt)
All-snoc (a ∷ bs) b h s = (h.0, All-snoc bs b h.1 s)

module _ (c : Sender) where
  process-busy : c.processing ≡ true → async_process_sending_queue c ≡ c
  unfolding async_process_sending_queue
  process-busy p = rw p

  process-start :
      (b : NetworkByteBuffer) (rest : List NetworkByteBuffer)
      → c.processing ≡ false
      → c.buffers ≡ b ∷ rest
      → IsSound b
      → async_process_sending_queue c ≡ record c { processing = true; in_flight = some (active b) }
  unfolding async_process_sending_queue
  process-start b rest p q s = ground (arith, p, q, active_size-eq b s)

-- A sender that is not busy starts to write as soon as its queue holds something.
module _ (sent : List ℕ) (c : Sender) where
  start-IsFlowing :
      (b : NetworkByteBuffer) (rest : List NetworkByteBuffer)
      → c.wire ++ pending c.buffers ≡ sent
      → All IsSound c.buffers
      → c.processing ≡ false
      → c.buffers ≡ b ∷ rest
      → IsFlowing sent (async_process_sending_queue c)
  start-IsFlowing b rest w s p q =
      subst (IsFlowing sent) (sym (process-start c b rest p q sound))
        (record { whole = w; sound = s; busy = writing b rest q refl refl })
    where
      sound : IsSound b
      sound = (subst (All IsSound) q s).0

-- A buffer at the end of the queue.
module _ (sent : List ℕ) (c : Sender) (b : NetworkByteBuffer) (f : IsFlowing sent c)
    (s : IsSound b) where
  abbrev queued : Sender
  queued = record c { buffers = c.buffers ++ (b ∷ []) }

  queued-whole : c.wire ++ pending (c.buffers ++ (b ∷ [])) ≡ sent ++ active b
  queued-whole =
      ap (◌++◌ c.wire) (pending-snoc c.buffers b)
      ∙ sym (append_assoc c.wire (pending c.buffers) (active b))
      ∙ ap (λ w. w ++ active b) f.whole

  queued-busy :
      c.processing ≡ true → IsBusy queued → IsFlowing (sent ++ active b) (enqueue_byte_buffer c b)
  unfolding enqueue_byte_buffer
  queued-busy p busy =
      subst (IsFlowing (sent ++ active b)) (sym (process-busy queued p))
        (record { whole = queued-whole; sound = All-snoc c.buffers b f.sound s; busy = busy })

  pub enqueue-IsFlowing : IsFlowing (sent ++ active b) (enqueue_byte_buffer c b)
  unfolding enqueue_byte_buffer
  enqueue-IsFlowing = elim f.busy [
    | writing a rest q p e ↦
        queued-busy p (writing a (rest ++ (b ∷ [])) (ap (λ bs. bs ++ (b ∷ [])) q) p e)
    | failed k p e ↦ queued-busy p (failed k p e)
    | quiet q p e ↦
        start-IsFlowing (sent ++ active b) queued b [] queued-whole (All-snoc c.buffers b f.sound s)
          p (ap (λ bs. bs ++ (b ∷ [])) q)
  ]

-- The socket has written `n` of the bytes in flight.
take-active :
    (b : NetworkByteBuffer) (n : ℕ)
    → IsSound b
    → n ≤ length (active b)
    → take n (active b) ++ active (advance_read b n) ≡ active b
take-active b n s h =
    ap (◌++◌ (take n (active b))) (active-advance b s n (omega (arith, length-active b s)))
    ∙ take-append-drop n (active b)

module _ (sent : List ℕ) (c : Sender) (f : IsFlowing sent c) where
  -- An error of the socket closes the connection, and loses nothing that was written.
  pub failure-IsFlowing : c.processing ≡ true → IsFlowing sent (write_handler c none)
  unfolding write_handler
  failure-IsFlowing p = record { whole = f.whole; sound = f.sound; busy = failed refl p refl }

  next-IsFlowing :
      (d : Sender)
      → d.wire ++ pending d.buffers ≡ sent
      → All IsSound d.buffers
      → d.processing ≡ false
      → d.in_flight ≡ none
      → IsFlowing sent (next_buffer d)
  unfolding next_buffer
  next-IsFlowing d w s p e = go d.buffers refl
    where
      go : (bs : List NetworkByteBuffer) → d.buffers ≡ bs → IsFlowing sent (next_buffer d)
      go [] q = rw (q, next_buffer) (record { whole = w; sound = s; busy = quiet q p e })
      go (b ∷ rest) q = rw (q, next_buffer) (start-IsFlowing sent d b rest w s p q)

  module _ (b : NetworkByteBuffer) (rest : List NetworkByteBuffer) (n : ℕ)
      (q : c.buffers ≡ b ∷ rest) where
    abbrev remaining : List NetworkByteBuffer
    remaining = if active_size (advance_read b n) == 0 then rest else advance_read b n ∷ rest

    abbrev advanced : Sender
    advanced = record c {
      processing = false;
      in_flight = none;
      wire = c.wire ++ take n (active b);
      buffers = remaining;
    }

    sounds : All IsSound (b ∷ rest)
    sounds = subst (All IsSound) q f.sound

    write_handler-front :
        c.in_flight ≡ some (active b) → write_handler c (some n) ≡ next_buffer advanced
    unfolding write_handler taken
    write_handler-front i = rw (q, i)

    module _ (h : n ≤ length (active b)) where
      room_left : n ≤ b.write_position - b.read_position
      room_left = omega (arith, length-active b sounds.0)

      sent-IsSound : IsSound (advance_read b n)
      sent-IsSound = advance_read-IsSound b sounds.0 n room_left

      remaining_cases :
          ((remaining ≡ rest) × (active (advance_read b n) ≡ []))
          ⊎ (remaining ≡ advance_read b n ∷ rest)
      remaining_cases = elim (Bool-cases (active_size (advance_read b n) == 0)) [
        | inl z ↦ inl (
          rw z,
          nil_of_length (active (advance_read b n)) (
              omega (
                arith,
                (==_iff (active_size (advance_read b n)) 0).0 z,
                active_size-eq (advance_read b n) sent-IsSound,
                length-active (advance_read b n) sent-IsSound,
              )),
        )
        | inr z ↦ inr (rw z)
      ]

      remaining-pending : take n (active b) ++ pending remaining ≡ pending c.buffers
      remaining-pending = elim remaining_cases [
        | inl (e, z) ↦
            rw (e, q)
              (ap (λ w. w ++ pending rest)
                (sym (append-nil (take n (active b)))
                  ∙ ap (◌++◌ (take n (active b))) (sym z)
                  ∙ take-active b n sounds.0 h))
        | inr e ↦
            rw (e, q)
              (sym (append_assoc (take n (active b)) (active (advance_read b n)) (pending rest))
                ∙ ap (λ w. w ++ pending rest) (take-active b n sounds.0 h))
      ]

      remaining-IsSound : All IsSound remaining
      remaining-IsSound = elim remaining_cases [
        | inl (e, z) ↦ rw e sounds.1
        | inr e ↦ rw e (sent-IsSound, sounds.1)
      ]

      front-IsFlowing : c.in_flight ≡ some (active b) → IsFlowing sent (write_handler c (some n))
      front-IsFlowing i = subst (IsFlowing sent) (sym (write_handler-front i)) (
          next-IsFlowing advanced
            (append_assoc c.wire (take n (active b)) (pending remaining)
              ∙ ap (◌++◌ c.wire) remaining-pending
              ∙ f.whole)
            remaining-IsSound refl refl)

  pub written-IsFlowing :
      (bs : List ℕ) (n : ℕ)
      → c.in_flight ≡ some bs
      → n ≤ length bs
      → IsFlowing sent (write_handler c (some n))
  written-IsFlowing bs n e h = elim f.busy [
    | writing b rest q p i ↦
        front-IsFlowing b rest n q
          (omega (arith, ap length (some-injective bs (active b) (sym e ∙ i)), h)) i
    | quiet q p i ↦ absurd (some-ne-none bs (sym e ∙ i))
    | failed k p i ↦ absurd (some-ne-none bs (sym e ∙ i))
  ]
