-- ===== src/Network/Send/Packing.antt =====
-- `EndSendings` packs the messages into buffers, in their order, and enqueues the buffers.
use scalable_cross_platform.Prelude.{
  ℕ, ◌+◌, ◌-◌, ◌^◌, ◌≤◌, ◌<◌, ◌≡◌, refl, sym, ap, ◌∙◌, ◌⊎◌, inl, inr, false, List, [], ◌∷◌, ◌++◌,
  append-nil, append_assoc, arith, length, ltb, leb, lt→ltb, le→ltb, leb→le, leb→lt, ltb→le,
  nil_of_length, Bool-cases, All, flatten,
}
use mathlib.Core.Path.{subst}
use native.Mathlib.Decide.{dec_lt}
use scalable_cross_platform.Memory.Bytes.{read_at}
use scalable_cross_platform.Memory.Buffer.{length-resize}
use scalable_cross_platform.Network.Buffer.{
  NetworkByteBuffer, IsSound, remaining_space, active_size, active_size-eq, remaining_space-eq,
}
use scalable_cross_platform.Network.Receive.Active.{active, length-active}
use scalable_cross_platform.Network.Receive.Reading.{active-written, written-IsSound}
use scalable_cross_platform.Network.Send.{
  Sender, enqueue_byte_buffer, append_message, fresh_buffer, make_room, place_message,
  pack_messages, flush_buffer, end_sendings,
}
use scalable_cross_platform.Network.Send.Flow.{IsFlowing, enqueue-IsFlowing}

abbrev pub IsSmall : List ℕ → Type 0
IsSmall message = length message < 2 ^ 63

-- A sender and the buffer that is being filled: together they hold what was to be sent.
pub record IsPacked (sent : List ℕ) (s : Sender × NetworkByteBuffer) : Type 0 where
  pub queue : List ℕ
  pub flowing : IsFlowing queue s.0
  pub sound : IsSound s.1
  pub whole : queue ++ active s.1 ≡ sent

-- A message behind what a sound buffer with room for it holds.
module _ (b : NetworkByteBuffer) (message : List ℕ) (s : IsSound b)
    (h : length message ≤ remaining_space b) where
  fits : b.write_position + length message ≤ length b.bytes
  fits = omega (arith, remaining_space-eq b s, h, s.within)

  append_message-IsSound : IsSound (append_message b message)
  unfolding append_message
  append_message-IsSound = written-IsSound b message s fits

  append_message-active : active (append_message b message) ≡ active b ++ message
  unfolding append_message
  append_message-active = active-written b message s fits

module _ (junk : ℕ → ℕ) where
  module _ (size : ℕ) (bounded : size < 2 ^ 63) where
    fresh-IsSound : IsSound (fresh_buffer junk size)
    unfolding fresh_buffer
    fresh-IsSound = record {
      ordered = omega arith;
      within = omega arith;
      bounded = omega (arith, length-resize junk [] size);
    }

    fresh-active : active (fresh_buffer junk size) ≡ []
    unfolding fresh_buffer read_at
    fresh-active = refl

    fresh-room : remaining_space (fresh_buffer junk size) ≡ size
    fresh-room = remaining_space-eq (fresh_buffer junk size) fresh-IsSound ∙ room
      where
        room :
            length (fresh_buffer junk size).bytes - (fresh_buffer junk size).write_position ≡ size
        room = unfold fresh_buffer in omega (arith, length-resize junk [] size)

  module _ (size : ℕ) (bounded : size < 2 ^ 63) (sent : List ℕ) where
    -- A message that does not fit finds an empty buffer.
    make_room-cases :
        (c : Sender) (b : NetworkByteBuffer) (message : List ℕ)
        → IsPacked sent (c, b)
        → IsPacked sent (make_room junk size (c, b) message)
          × ((length message ≤ remaining_space (make_room junk size (c, b) message).1)
              ⊎ (active (make_room junk size (c, b) message).1 ≡ []))
    unfolding make_room
    make_room-cases c b message k = elim (dec_lt (remaining_space b) (length message)) [
      | yes full ↦ rw (lt→ltb (remaining_space b) (length message) full) (
        record {
          queue = k.queue ++ active b;
          flowing = enqueue-IsFlowing k.queue c b k.flowing k.sound;
          sound = fresh-IsSound size bounded;
          whole =
              ap (◌++◌ (k.queue ++ active b)) (fresh-active size bounded)
              ∙ append-nil (k.queue ++ active b)
              ∙ k.whole;
        },
        inr (fresh-active size bounded),
      )
      | no room ↦
          rw (le→ltb (remaining_space b) (length message) (omega (arith, room)))
            (k, inl (omega (arith, room)))
    ]

    place_message-IsPacked :
        (c : Sender) (b : NetworkByteBuffer) (message : List ℕ)
        → length message < 2 ^ 63
        → IsPacked sent (c, b)
        → (length message ≤ remaining_space b) ⊎ (active b ≡ [])
        → IsPacked (sent ++ message) (place_message junk (c, b) message)
    unfolding place_message
    place_message-IsPacked c b message small k room =
        elim (Bool-cases (leb (length message) (remaining_space b))) [
          | inl fit ↦ rw fit (record {
            queue = k.queue;
            flowing = k.flowing;
            sound =
                append_message-IsSound b message k.sound
                  (leb→le (length message) (remaining_space b) fit);
            whole =
                ap (◌++◌ k.queue) (
                  append_message-active b message k.sound
                    (leb→le (length message) (remaining_space b) fit))
                ∙ sym (append_assoc k.queue (active b) message)
                ∙ ap (λ w. w ++ message) k.whole;
          })
          | inr over ↦ rw over (record {
            queue = k.queue ++ active single;
            flowing = enqueue-IsFlowing k.queue c single k.flowing single_sound;
            sound = k.sound;
            whole =
                rw (empty over, single_active)
                  (append-nil (k.queue ++ message)
                    ∙ ap (λ w. w ++ message)
                        (sym (append-nil k.queue)
                          ∙ ap (◌++◌ k.queue) (sym (empty over))
                          ∙ k.whole));
          })
        ]
      where
        single : NetworkByteBuffer
        single = append_message (fresh_buffer junk (length message)) message

        single_room : length message ≤ remaining_space (fresh_buffer junk (length message))
        single_room = omega (arith, fresh-room (length message) small)

        single_sound : IsSound single
        single_sound =
            append_message-IsSound (fresh_buffer junk (length message)) message
              (fresh-IsSound (length message) small) single_room

        single_active : active single ≡ message
        single_active =
            append_message-active (fresh_buffer junk (length message)) message
              (fresh-IsSound (length message) small) single_room
            ∙ ap (λ w. w ++ message) (fresh-active (length message) small)

        empty : leb (length message) (remaining_space b) ≡ false → active b ≡ []
        empty over = elim room [
          | inl fit ↦ absurd (omega (arith, fit, leb→lt (length message) (remaining_space b) over))
          | inr e ↦ e
        ]

  module _ (size : ℕ) (bounded : size < 2 ^ 63) where
    pack_messages-IsPacked :
        (messages : List (List ℕ)) (sent : List ℕ) (c : Sender) (b : NetworkByteBuffer)
        → All IsSmall messages
        → IsPacked sent (c, b)
        → IsPacked (sent ++ flatten messages) (pack_messages junk size (c, b) messages)
    unfolding pack_messages
    pack_messages-IsPacked [] sent c b small k = rw (append-nil sent) k
    pack_messages-IsPacked (m ∷ ms) sent c b small k =
        let (p, room) = make_room-cases size bounded sent c b m k in
        rw⁻¹ (append_assoc sent m (flatten ms)) (
          pack_messages-IsPacked ms (sent ++ m) _ _ small.1
            (place_message-IsPacked size bounded sent _ _ m small.0 p room))

    flush-IsFlowing :
        (sent : List ℕ) (c : Sender) (b : NetworkByteBuffer)
        → IsPacked sent (c, b)
        → IsFlowing sent (flush_buffer junk (c, b))
    unfolding flush_buffer
    flush-IsFlowing sent c b k = elim (Bool-cases (ltb 0 (active_size b))) [
      | inl some_ ↦ rw some_ (
          subst (λ w. IsFlowing w (enqueue_byte_buffer c b)) k.whole
            (enqueue-IsFlowing k.queue c b k.flowing k.sound))
      | inr none_ ↦ rw none_ (
          subst (λ w. IsFlowing w c)
            (sym (append-nil k.queue)
              ∙ ap (◌++◌ k.queue) (
                  sym (
                    nil_of_length (active b) (
                      omega (
                        arith,
                        length-active b k.sound,
                        active_size-eq b k.sound,
                        ltb→le 0 (active_size b) none_,
                      ))))
              ∙ k.whole)
            k.flowing)
    ]

    pub end_sendings-IsFlowing :
        (sent : List ℕ) (c : Sender) (messages : List (List ℕ))
        → All IsSmall messages
        → IsFlowing sent c
        → IsFlowing (sent ++ flatten messages) (end_sendings junk size c messages)
    unfolding end_sendings
    end_sendings-IsFlowing sent c messages small f =
        flush-IsFlowing (sent ++ flatten messages) _ _ (
          pack_messages-IsPacked messages sent c (fresh_buffer junk size) small (record {
            queue = sent;
            flowing = f;
            sound = fresh-IsSound size bounded;
            whole = ap (◌++◌ sent) (fresh-active size bounded) ∙ append-nil sent;
          }))
