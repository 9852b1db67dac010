-- ===== src/Network/Receive/Reading.antt =====
-- From the socket to the framer: `NormalizeBuffer`, `AsyncReadSome` and `HandleRead`.
use scalable_cross_platform.Prelude.{
  ℕ, zero, suc, ◌+◌, ◌-◌, ◌≤◌, ◌<◌, ◌≡◌, refl, sym, ap, ◌∙◌, Bool, false, some, List, ◌++◌, arith,
  length, take, drop, length-take, drop-take, drop-append_left,
}
use native.Mathlib.Decide.{dec_lt}
use scalable_cross_platform.Memory.Bytes.{
  write_at, read_at, length-write_at, read_at-write_at, take_past-write_at,
}
use scalable_cross_platform.Network.Buffer.{
  NetworkByteBuffer, IsSound, advance_read, advance_write, active_size-eq,
}
use scalable_cross_platform.Network.Framing.{Loop, stop, continue, feed}
use scalable_cross_platform.Network.Receive.{
  Receiver, normalize_buffer, fill_message, start_message, extract_step, extract, extract_messages,
  handle_read, close,
}
use scalable_cross_platform.Network.Receive.Active.{active, view, IsValid, length-active}
use scalable_cross_platform.Network.Receive.Extract.{extract_messages-refines}

-- `NormalizeBuffer` moves what has not been read to the front and keeps it.
pub record Normalized (b n : NetworkByteBuffer) : Type 0 where
  pub sound : IsSound n
  pub front : n.read_position ≡ 0
  pub filled : n.write_position ≡ b.write_position - b.read_position
  pub same_length : length n.bytes ≡ length b.bytes
  pub same_active : active n ≡ active b

module _ (b : NetworkByteBuffer) (s : IsSound b) where
  normalize_unread : b.read_position ≡ 0 → normalize_buffer b ≡ b
  unfolding normalize_buffer
  normalize_unread h = ground arith

  normalize_all_read :
      0 < b.read_position
      → b.read_position ≡ b.write_position
      → normalize_buffer b ≡ record b { read_position = 0; write_position = 0 }
  unfolding normalize_buffer
  normalize_all_read h e = ground arith

  normalize_moves :
      0 < b.read_position
      → b.read_position < b.write_position
      → normalize_buffer b ≡ record {
        bytes = write_at b.bytes 0 (active b);
        read_position = 0;
        write_position = b.write_position - b.read_position;
      }
  unfolding normalize_buffer
  normalize_moves h k = ground (arith, active_size-eq b s)

  pub normalize-Normalized : Normalized b (normalize_buffer b)
  normalize-Normalized = elim (dec_lt 0 b.read_position) [
    | no unread ↦ rw (normalize_unread (omega arith)) (record {
      sound = s;
      front = omega arith;
      filled = omega arith;
      same_length = refl;
      same_active = refl;
    })
    | yes some_read ↦ elim (dec_lt b.read_position b.write_position) [
      | no all_read ↦ rw (normalize_all_read some_read (omega arith)) (record {
        sound = record { ordered = omega arith; within = omega arith; bounded = s.bounded };
        front = refl;
        filled = omega arith;
        same_length = refl;
        same_active =
            unfold read_at in ap (λ k. take k (drop b.read_position b.bytes)) {x = 0} (omega arith);
      })
      | yes some_left ↦ rw (normalize_moves some_read some_left) (record {
        sound = record {
          ordered = omega arith;
          within = omega (arith, moved_length);
          bounded = omega (arith, moved_length);
        };
        front = refl;
        filled = refl;
        same_length = moved_length;
        same_active = moved;
      })
    ]
  ]
    where
      moved_length : length (write_at b.bytes 0 (active b)) ≡ length b.bytes
      moved_length = length-write_at b.bytes 0 (active b) (omega (arith, length-active b s))

      moved :
          read_at (write_at b.bytes 0 (active b)) 0 (b.write_position - b.read_position - 0)
          ≡ active b
      moved =
          ap (read_at (write_at b.bytes 0 (active b)) 0) (omega (arith, length-active b s))
          ∙ read_at-write_at b.bytes 0 (omega arith) (active b)

-- The bytes that the socket writes come behind the others.
pub active-written :
    (b : NetworkByteBuffer) (chunk : List ℕ)
    → IsSound b
    → b.write_position + length chunk ≤ length b.bytes
    → active (
        advance_write (record b { bytes = write_at b.bytes b.write_position chunk }) (length chunk))
      ≡ active b ++ chunk
unfolding advance_write read_at
active-written b chunk s h =
    ap (λ k. take k (drop r (write_at b.bytes w chunk))) (omega arith)
    ∙ sym (drop-take r (w + length chunk) (write_at b.bytes w chunk))
    ∙ ap (drop r) (take_past-write_at b.bytes w s.within chunk)
    ∙ drop-append_left r (take w b.bytes) chunk (omega (arith, length-take w b.bytes))
    ∙ ap (λ k. k ++ chunk) (drop-take r w b.bytes)
  where
    r : ℕ
    r = b.read_position

    w : ℕ
    w = b.write_position

pub written-IsSound :
    (b : NetworkByteBuffer) (chunk : List ℕ)
    → IsSound b
    → b.write_position + length chunk ≤ length b.bytes
    → IsSound (
        advance_write (record b { bytes = write_at b.bytes b.write_position chunk }) (length chunk))
unfolding advance_write
written-IsSound b chunk s h = omega (arith, length-write_at b.bytes b.write_position chunk h)

step_result : Loop Receiver → Receiver
step_result (stop c) = c
step_result (continue c) = c

module _ (junk : ℕ → ℕ) (valid : ℕ → ℕ → Bool) where
  -- A read that brings a chunk is the framer's, if the chunk fits behind what is in the buffer.
  pub handle_read-refines :
      (c : Receiver) (chunk : List ℕ)
      → IsValid c
      → c.closed ≡ false
      → c.buffer.write_position + length chunk ≤ length c.buffer.bytes
      → (view (handle_read junk valid c (some chunk)) ≡ feed valid (view c) chunk)
        × IsValid (handle_read junk valid c (some chunk))
  unfolding handle_read feed
  handle_read-refines c chunk v open_ h =
      let (p, q) = extract_messages-refines junk valid written written-IsValid open_ in
      (p ∙ rw (open_, active-written c.buffer chunk v.buffer h), q)
    where
      written : Receiver
      written = record c {
        buffer =
            advance_write
              (record c.buffer { bytes = write_at c.buffer.bytes c.buffer.write_position chunk })
              (length chunk);
      }

      written-IsValid : IsValid written
      written-IsValid = record {
        buffer = written-IsSound c.buffer chunk v.buffer h;
        extracted = v.extracted;
      }

  step-bytes :
      (c : Receiver) → (step_result (extract_step junk valid c)).buffer.bytes ≡ c.buffer.bytes
  unfolding step_result extract_step start_message fill_message advance_read close
  step-bytes c = ground arith

  extract-bytes : (f : ℕ) (c : Receiver) → (extract junk valid f c).buffer.bytes ≡ c.buffer.bytes
  unfolding extract
  extract-bytes zero c = refl
  extract-bytes (suc f) c = go (extract_step junk valid c) (step-bytes c) (extract-bytes f)
    where
      go :
          (l : Loop Receiver)
          → (step_result l).buffer.bytes ≡ c.buffer.bytes
          → ((d : Receiver) → (extract junk valid f d).buffer.bytes ≡ d.buffer.bytes)
          → let r : Receiver = elim l [ stop d ↦ d | continue d ↦ extract junk valid f d ] in
            r.buffer.bytes ≡ c.buffer.bytes
      go (stop d) e ih = unfold step_result in e
      go (continue d) e ih = ih d ∙ unfold step_result in e

  pub handle_read-length :
      (c : Receiver) (chunk : List ℕ)
      → c.buffer.write_position + length chunk ≤ length c.buffer.bytes
      → length (handle_read junk valid c (some chunk)).buffer.bytes ≡ length c.buffer.bytes
  unfolding handle_read extract_messages advance_write
  handle_read-length c chunk h =
      ap length (extract-bytes (suc _) _)
      ∙ length-write_at c.buffer.bytes c.buffer.write_position chunk h
