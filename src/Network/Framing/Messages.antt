-- ===== src/Network/Framing/Messages.antt =====
-- Messages that are sent one behind the other, each with its size in front, come out as they were.
use scalable_cross_platform.Prelude.{
  ℕ, ◌+◌, ◌%◌, ◌^◌, ◌≤◌, ◌<◌, ◌≡◌, refl, ap, ◌∙◌, Bool, true, none, List, [], ◌∷◌, ◌++◌, map,
  append-nil, append_assoc, arith, length, take, drop, flatten, length-append, All,
  take-append_left, take-all, drop-append_right,
}
use native.Mathlib.Nat.{mod-eq_of_lt}
use scalable_cross_platform.Memory.Bytes.{to_bytes, length-to_bytes, from_bytes-to_bytes}
use scalable_cross_platform.Network.Framing.{
  Framer, start, continue, header_size_of, header_command_of, u16_of, settle, feed, feed_all,
}
use scalable_cross_platform.Network.Framing.Steps.{
  settle-open, settle-resume, frame_step_nil, open_message-good, complete_long, resume,
}
use scalable_cross_platform.Network.Framing.Chunks.{feed_all-flatten}

-- A message on the wire.
abbrev pub framed : List ℕ → List ℕ
framed body = to_bytes 2 (length body) ++ body

module _ (valid : ℕ → ℕ → Bool) where
  -- A body that holds its opcode, has a size of 16 bits and a header that the session hook accepts.
  pub record IsSendable (body : List ℕ) : Type 0 where
    pub has_opcode : 2 ≤ length body
    pub sized : length body < 2 ^ 16
    pub accepted : valid (length body) (u16_of (take 2 body)) ≡ true

  module _ (body rest : List ℕ) where
    wire-eq : framed body ++ rest ≡ to_bytes 2 (length body) ++ (body ++ rest)
    wire-eq = append_assoc (to_bytes 2 (length body)) body rest

    size_field : length (to_bytes 2 (length body)) ≡ 2
    size_field = length-to_bytes 2 (length body)

    header_size_of-framed :
        length body < 2 ^ 16 → header_size_of (framed body ++ rest) ≡ length body
    header_size_of-framed h =
        ap header_size_of wire-eq
        ∙ ap u16_of (
            take-append_left 2 (to_bytes 2 (length body)) (body ++ rest) (omega (arith, size_field))
            ∙ take-all 2 (to_bytes 2 (length body)) (omega (arith, size_field)))
        ∙ ap (λ n. n % 2 ^ 16) (from_bytes-to_bytes 2 (length body) h)
        ∙ mod-eq_of_lt h

    drop-framed : drop 2 (framed body ++ rest) ≡ body ++ rest
    drop-framed =
        ap (drop 2) wire-eq
        ∙ drop-append_right 2 (to_bytes 2 (length body)) (body ++ rest) (omega (arith, size_field))
        ∙ ap (λ k. drop k (body ++ rest)) {y = 0} (omega (arith, size_field))

    length-wire : length (framed body ++ rest) ≡ 2 + length body + length rest
    length-wire = omega (
      arith,
      size_field,
      length-append (framed body) rest,
      length-append (to_bytes 2 (length body)) body,
    )

    abbrev delivering : Framer → Framer
    delivering s = record s { partial = none; input = rest; delivered = s.delivered ++ (body ∷ []) }

    -- A whole message at the front is delivered, and the rest is gone on with.
    settle-framed :
        (s : Framer)
        → s.partial ≡ none
        → s.input ≡ framed body ++ rest
        → IsSendable body
        → settle valid s ≡ settle valid (delivering s)
    settle-framed s e q b =
        settle-open valid s e (omega (arith, ap length q, length-wire, b.has_opcode))
        ∙ ap (resume valid) {y = continue (delivering s)} (
            open_message-good valid s (omega (arith, ap length q, length-wire, b.has_opcode)) header
            ∙ complete_long opened [] (header_size_of s.input)
                (omega (arith, sized, ap length unsized, length-append body rest))
            ∙ rw (front, back))
      where
        opened : Framer
        opened = record s { input = drop 2 s.input }

        sized : header_size_of s.input ≡ length body
        sized = ap header_size_of q ∙ header_size_of-framed b.sized

        unsized : drop 2 s.input ≡ body ++ rest
        unsized = ap (drop 2) q ∙ drop-framed

        front : take (header_size_of s.input) (drop 2 s.input) ≡ body
        front =
            rw (sized, unsized)
              (take-append_left (length body) body rest (omega arith)
                ∙ take-all (length body) body (omega arith))

        back : drop (header_size_of s.input) (drop 2 s.input) ≡ rest
        back =
            rw (sized, unsized)
              (drop-append_right (length body) body rest (omega arith)
                ∙ ap (λ k. drop k rest) {y = 0} (omega arith))

        header : valid (header_size_of s.input) (header_command_of s.input) ≡ true
        header = rw (sized, unsized, take-append_left 2 body rest b.has_opcode) b.accepted

  settle-messages :
      (bodies : List (List ℕ)) (s : Framer)
      → s.partial ≡ none
      → s.input ≡ flatten (map framed bodies)
      → All IsSendable bodies
      → settle valid s ≡ record s { partial = none; input = []; delivered = s.delivered ++ bodies }
  settle-messages [] s e q b =
      settle-resume valid s (rw e tt)
      ∙ ap (resume valid) (frame_step_nil valid s (ap length q))
      ∙ ground (arith, append-nil s.delivered)
  settle-messages (body ∷ bodies) s e q b =
      settle-framed body (flatten (map framed bodies)) s e q b.0
      ∙ settle-messages bodies (delivering body (flatten (map framed bodies)) s) refl refl b.1
      ∙ rw (append_assoc s.delivered (body ∷ []) bodies)

  -- If the chunks that arrive are, put together, messages each with its size in front, and every
  -- message holds an opcode, has a size of 16 bits and a header that the session hook accepts, then
  -- exactly these messages are delivered, in their order, no byte is left over and the connection
  -- stays open.
  pub feed_all-framed :
      (chunks bodies : List (List ℕ))
      → flatten chunks ≡ flatten (map framed bodies)
      → All IsSendable bodies
      → feed_all valid start chunks ≡ record start { delivered = bodies }
  unfolding feed
  feed_all-framed chunks bodies e b =
      feed_all-flatten valid chunks
      ∙ ap (feed valid start) e
      ∙ settle-messages bodies (record start { input = flatten (map framed bodies) }) refl refl b
