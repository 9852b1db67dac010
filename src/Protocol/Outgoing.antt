-- ===== src/Protocol/Outgoing.antt =====
-- BaseServer/BaseServer/Protocol/Include/Public/OutgoingMessage.h: the buffer of a message, which
-- begins with the size of its body, and the stream that the fields go through.
use scalable_cross_platform.Prelude.{
  ℕ, suc, ◌+◌, ◌-◌, ◌≤◌, ◌<◌, ◌≡◌, ap, ◌∙◌, List, [], ◌∷◌, ◌++◌, arith, length, ltb, if◌then◌else◌,
  length-append, le→ltb,
}
use scalable_cross_platform.Memory.Bytes.{to_bytes, write_at, write_at-whole, length-to_bytes}
use scalable_cross_platform.Memory.Exception.{
  StreamException, out_of_bounds, too_long_message_body, Result, ok, thrown, ◌>>=◌,
}
use scalable_cross_platform.Memory.Stream.{Kind, u16, size_of, Primitive, Stream, put, put_all}
use scalable_cross_platform.Memory.StreamLaws.{
  encode, width, length-encode, put_all_fits, put_all_refused,
}
use scalable_cross_platform.Memory.Buffer.{resize, length-resize, write_at-but_last}

abbrev pub header_size : ℕ
header_size = 2

abbrev pub max_body_size : ℕ
max_body_size = 65535 - header_size

-- A field of a message: a value and the type that the code casts it to.
abbrev pub field : Kind → ℕ → Primitive
field k v = record { kind = k; pattern_bits = v }

module _ (junk : ℕ → ℕ) where
  -- The constructor of `OutgoingMessage`.
  unfoldable pub outgoing_message : ℕ → Result Stream
  outgoing_message body =
      if ltb max_body_size body
      then thrown (too_long_message_body body)
      else put (record { bytes = resize junk [] (header_size + body); position = 0 })
          (field u16 body)

  -- A message of the given body size, with its fields put in by `GetStreamWriter() << …`.
  unfoldable pub compose : ℕ → List Primitive → Result Stream
  compose body fields = do s ← outgoing_message body; put_all s fields

  -- The body size goes first, as one more field.
  compose_as_chain :
      (body : ℕ) (fields : List Primitive)
      → body ≤ max_body_size
      → compose body fields
        ≡ put_all
            (record { bytes = resize junk [] (header_size + body); position = 0 })
            (field u16 body ∷ fields)
  unfolding compose outgoing_message put_all
  compose_as_chain body fields h = rw (le→ltb max_body_size body h)

  -- Fields that fit the body behind the size: the message is made.
  compose_fits :
      (body : ℕ) (fields : List Primitive)
      → body ≤ max_body_size
      → width fields ≤ body
      → compose body fields
        ≡ ok (record {
          bytes =
              write_at (resize junk [] (header_size + body)) 0 (to_bytes 2 body ++ encode fields);
          position = header_size + width fields;
        })
  unfolding size_of encode
  compose_fits body fields h k =
      compose_as_chain body fields h
      ∙ put_all_fits (field u16 body ∷ fields) _
          (omega (arith, length-resize junk [] (header_size + body)))
          (omega (arith, length-resize junk [] (header_size + body)))
      ∙ ground arith

  -- A message whose fields take up its body exactly is made, and holds its size and its fields and
  -- nothing of what was in memory before.
  pub compose_exact :
      (body : ℕ) (fields : List Primitive)
      → body ≤ max_body_size
      → width fields ≡ body
      → compose body fields
        ≡ ok (record { bytes = to_bytes 2 body ++ encode fields; position = header_size + body })
  compose_exact body fields h e =
      compose_fits body fields h (omega arith)
      ∙ ground (
        arith,
        write_at-whole (resize junk [] (2 + body)) (to_bytes 2 body ++ encode fields) filled,
      )
    where
      filled : length (resize junk [] (2 + body)) ≡ length (to_bytes 2 body ++ encode fields)
      filled = omega (
        arith,
        length-resize junk [] (2 + body),
        length-append (to_bytes 2 body) (encode fields),
        length-to_bytes 2 body,
        length-encode fields,
      )

  -- A message whose fields leave one byte of its body free sends that byte as it was in memory.
  pub compose_slack :
      (body : ℕ) (fields : List Primitive)
      → body ≤ max_body_size
      → width fields + 1 ≡ body
      → compose body fields
        ≡ ok (record {
          bytes = (to_bytes 2 body ++ encode fields) ++ (junk (1 + body) ∷ []);
          position = 1 + body;
        })
  compose_slack body fields h e =
      compose_fits body fields h (omega arith)
      ∙ ground (
        arith,
        write_at-but_last junk (1 + body) (to_bytes 2 body ++ encode fields) short,
        ap (resize junk []) size,
      )
    where
      size : header_size + body ≡ suc (1 + body)
      size = omega arith

      short : length (to_bytes 2 body ++ encode fields) ≡ 1 + body
      short = omega (
        arith,
        length-append (to_bytes 2 body) (encode fields),
        length-to_bytes 2 body,
        length-encode fields,
      )

  -- One whose fields do not fit its body throws.
  pub compose_refused :
      (body : ℕ) (fields : List Primitive)
      → body ≤ max_body_size
      → body < width fields
      → (e : StreamException) × (compose body fields ≡ thrown (out_of_bounds e))
  unfolding size_of
  compose_refused body fields h k =
      let (e, q, t, r) =
        put_all_refused (field u16 body ∷ fields)
          (record { bytes = resize junk [] (header_size + body); position = 0 }) (omega arith)
          (omega (arith, length-resize junk [] (header_size + body)))
          (omega (arith, length-resize junk [] (header_size + body))) in
      (e, compose_as_chain body fields h ∙ q)
