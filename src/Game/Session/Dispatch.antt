-- ===== src/Game/Session/Dispatch.antt =====
-- Which messages `Session::Update` gets through.
use scalable_cross_platform.Prelude.{
  ℕ, zero, suc, ◌%◌, ◌^◌, ◌≤◌, ◌<◌, ◌≡◌, refl, Bool, true, false, ◌&&◌, List, [], ◌∷◌, arith,
  length, take, drop, All, lt→ltb, le→ltb,
}
use scalable_cross_platform.Memory.Bytes.{from_bytes, read_at}
use scalable_cross_platform.Memory.Exception.{ok, thrown, StreamException, out_of_bounds, reader}
use scalable_cross_platform.Memory.Stream.{u16, size_of, get, operate_read}
use scalable_cross_platform.Game.Session.{
  PreprocessedMessage, Answer, handled, stream_exception, Handler, past_end, registered, entry,
  get_message_handler, Outcome, finished, escaped, process_messages, update_session,
}

-- A message that holds an opcode below `size`.
pub record IsDispatchable (size : ℕ) (m : PreprocessedMessage) : Type 0 where
  pub has_opcode : 2 ≤ length m.data_bytes
  pub known : from_bytes (take 2 m.data_bytes) % 2 ^ 16 < size

module _ (bytes : List ℕ) where
  -- The opcode is read from the first two bytes.
  get-opcode :
      2 ≤ length bytes
      → get (record { bytes = bytes; position = 0 }) u16
        ≡ ok (
          record { kind = u16; pattern_bits = from_bytes (take 2 bytes) },
          record { bytes = bytes; position = 2 },
        )
  unfolding get operate_read size_of read_at
  get-opcode h = rw (le→ltb (length bytes) 2 h, get)

  -- Without two bytes there is no opcode, and the read throws.
  get-short :
      length bytes < 2
      → get (record { bytes = bytes; position = 0 }) u16
        ≡ thrown (
            out_of_bounds (record {
              byte_buffer_size = length bytes;
              stream_type = reader;
              stream_position = 0;
              data_size = 2;
            }))
  unfolding get operate_read size_of
  get-short h = rw (lt→ltb (length bytes) 2 h, get)

module _ (S : Type 0) (handlers : List (Handler S)) where
  entry-registered :
      (hs : List (Handler S)) (n : ℕ)
      → n < length hs
      → (h : Handler S) × (entry S hs n ≡ registered h)
  unfolding entry
  entry-registered [] n h = absurd (omega (arith, h))
  entry-registered (f ∷ hs) zero h = (f, refl)
  entry-registered (f ∷ hs) (suc n) h = entry-registered hs n (omega (arith, h))

  -- The registry has a handler for every opcode below its size.
  get_message_handler-registered :
      (n : ℕ)
      → n < length handlers
      → (h : Handler S) × (get_message_handler S handlers n ≡ registered h)
  unfolding get_message_handler
  get_message_handler-registered n h =
      let (f, e) = entry-registered handlers n h in
      (f, rw (le→ltb (length handlers) n (omega (arith, h))) e)

  -- An opcode that is the number of handlers passes the registry's test and is read behind the array.
  entry-past_end : (hs : List (Handler S)) → entry S hs (length hs) ≡ past_end
  unfolding entry
  entry-past_end [] = refl
  entry-past_end (f ∷ hs) = entry-past_end hs

  -- The opcode that is the number of handlers is read behind the array.
  pub get_message_handler-size : get_message_handler S handlers (length handlers) ≡ past_end
  unfolding get_message_handler
  get_message_handler-size =
      rw (le→ltb (length handlers) (length handlers) (omega arith)) (entry-past_end handlers)

  -- How a loop of at most `n` rounds ends: with the first messages processed and the others left.
  pub record Finishes (n : ℕ) (queue : List PreprocessedMessage) (o : Outcome S) : Type 0 where
    pub state : S
    pub processed : ℕ
    pub result : Bool
    pub ends : o ≡ finished state (drop processed queue) result
    pub limited : processed ≤ n

  after : ℕ → List PreprocessedMessage → Answer S → Outcome S
  after n queue (handled true t) = process_messages S handlers n t queue
  after n queue (handled false t) = finished t queue false
  after n queue (stream_exception t) = process_messages S handlers n t queue

  process_messages-after :
      (n : ℕ) (s : S) (m : PreprocessedMessage) (queue : List PreprocessedMessage) (h : Handler S)
      → 2 ≤ length m.data_bytes
      → get_message_handler S handlers (from_bytes (take 2 m.data_bytes) % 2 ^ 16) ≡ registered h
      → process_messages S handlers (suc n) s (m ∷ queue)
        ≡ after n queue (h s (record { bytes = m.data_bytes; position = 2 }) m.metadata)
  unfolding process_messages after
  process_messages-after n s m queue h g e =
      rw (get-opcode m.data_bytes g, e, process_messages)
        (go (h s (record { bytes = m.data_bytes; position = 2 }) m.metadata))
    where
      go :
          (a : Answer S)
          → elim a [
            | handled true t ↦ process_messages S handlers n t queue
            | handled false t ↦ finished t queue false
            | stream_exception t ↦ process_messages S handlers n t queue
          ]
            ≡ after n queue a
      go (handled true t) = refl
      go (handled false t) = refl
      go (stream_exception t) = refl

  one_more :
      (n : ℕ) (m : PreprocessedMessage) (queue : List PreprocessedMessage) (o : Outcome S)
      → Finishes n queue o
      → Finishes (suc n) (m ∷ queue) o
  one_more n m queue o f = record {
    state = f.state;
    processed = suc f.processed;
    result = f.result;
    ends = f.ends;
    limited = omega (arith, f.limited);
  }

  process_messages-Finishes :
      (n : ℕ) (s : S) (queue : List PreprocessedMessage)
      → All (IsDispatchable (length handlers)) queue
      → Finishes n queue (process_messages S handlers n s queue)
  unfolding process_messages after
  process_messages-Finishes zero s queue d = record {
    state = s;
    processed = 0;
    result = true;
    ends = refl;
    limited = omega arith;
  }
  process_messages-Finishes (suc n) s [] d = record {
    state = s;
    processed = 0;
    result = true;
    ends = refl;
    limited = omega arith;
  }
  process_messages-Finishes (suc n) s (m ∷ queue) d =
      let (h, e) =
        get_message_handler-registered (from_bytes (take 2 m.data_bytes) % 2 ^ 16) d.0.known in
      rw (process_messages-after n s m queue h d.0.has_opcode e) (
        go (λ t. process_messages-Finishes n t queue d.1)
          (h s (record { bytes = m.data_bytes; position = 2 }) m.metadata))
    where
      go :
          ((t : S) → Finishes n queue (process_messages S handlers n t queue))
          → (a : Answer S) → Finishes (suc n) (m ∷ queue) (after n queue a)
      go rest (handled true t) = one_more n m queue _ (rest t)
      go rest (handled false t) = record {
        state = t;
        processed = 1;
        result = false;
        ends = refl;
        limited = omega arith;
      }
      go rest (stream_exception t) = one_more n m queue _ (rest t)

  -- If every queued message holds an opcode below the number of handlers, then an update of the
  -- session ends without an exception and without a call of what is no handler, whatever the handlers
  -- answer. It processes at most as many messages as it may, from the front, and leaves the others.
  pub update_session-Finishes :
      (most : ℕ) (is_open : Bool) (s : S) (queue : List PreprocessedMessage)
      → All (IsDispatchable (length handlers)) queue
      → Finishes most queue (update_session S handlers most is_open s queue)
  unfolding update_session
  update_session-Finishes most is_open s queue d =
      let f = process_messages-Finishes most s queue d in
      record {
        state = f.state;
        processed = f.processed;
        result = f.result && is_open;
        ends = rw (f.ends, update_session) refl;
        limited = f.limited;
      }

  -- A first message of fewer than two bytes makes the update end with an exception of the reader that
  -- nothing in it catches, if the session may process a message at all.
  pub update_session-short :
      (most : ℕ) (is_open : Bool) (s : S) (m : PreprocessedMessage)
      (queue : List PreprocessedMessage)
      → length m.data_bytes < 2
      → (e : StreamException) × (update_session S handlers (suc most) is_open s (m ∷ queue)
          ≡ escaped (out_of_bounds e))
        × (e.byte_buffer_size ≡ length m.data_bytes)
  unfolding update_session process_messages
  update_session-short most is_open s m queue h = (
    record {
      byte_buffer_size = length m.data_bytes;
      stream_type = reader;
      stream_position = 0;
      data_size = 2;
    },
    rw (get-short m.data_bytes h, update_session, process_messages) refl,
    refl,
  )
