-- ===== src/Network/Receive/Refine.antt =====
-- The receiving half of a connection, with its positions and copies, does what the framer of
-- Network/Framing does with plain lists.
use scalable_cross_platform.Prelude.{
  ℕ, ◌+◌, ◌-◌, ◌^◌, ◌≤◌, ◌<◌, ◌≡◌, refl, sym, ap, ◌∙◌, false, some, List, [], ◌++◌, arith, length,
  take, length-take, lt→ltb, le→ltb, drop-all,
}
use native.Mathlib.Decide.{dec_lt}
use scalable_cross_platform.Memory.Bytes.{
  write_at, read_at, length-write_at, take_past-write_at, write_at-end,
}
use scalable_cross_platform.Network.Buffer.{
  NetworkByteBuffer, IsSound, remaining_space, active_size, advance_read, advance_write,
  active_size-eq,
}
use scalable_cross_platform.Network.Framing.{Framer, Loop, stop, continue, complete}
use scalable_cross_platform.Network.Framing.Steps.{complete_short, complete_long}
use scalable_cross_platform.Network.Receive.{Receiver, fill_message}
use scalable_cross_platform.Network.Receive.Active.{
  active, progress, view, IsPartial, IsValid, length-active, read_at-active, active-advance,
  advance_read-IsSound,
}

abbrev pub view_loop : Loop Receiver → Loop Framer
view_loop (stop c) = stop (view c)
view_loop (continue c) = continue (view c)

abbrev pub result : Loop Receiver → Receiver
result (stop c) = c
result (continue c) = c

module _ (c : Receiver) (m : NetworkByteBuffer) (s : IsSound c.buffer) (open_ : c.closed ≡ false)
    (within : m.write_position ≤ length m.bytes) (bounded : length m.bytes < 2 ^ 63) where
  abbrev missing : ℕ
  missing = length m.bytes - m.write_position

  remaining : remaining_space m ≡ missing
  remaining = unfold remaining_space in omega arith

  available : length (view c).input ≡ active_size c.buffer
  available = rw open_ (omega (arith, length-active c.buffer s, active_size-eq c.buffer s))

  unread : List ℕ
  unread = read_at c.buffer.bytes c.buffer.read_position (active_size c.buffer)

  unread-active : unread ≡ active c.buffer
  unfolding unread
  unread-active = ap (read_at c.buffer.bytes c.buffer.read_position) (active_size-eq c.buffer s)

  length-unread : length unread ≡ active_size c.buffer
  length-unread =
      ap length unread-active ∙ length-active c.buffer s ∙ sym (active_size-eq c.buffer s)

  used_up : active (advance_read c.buffer (active_size c.buffer)) ≡ []
  used_up =
      active-advance c.buffer s (active_size c.buffer) (omega (arith, active_size-eq c.buffer s))
      ∙ drop-all (active_size c.buffer) (active c.buffer)
          (omega (arith, length-active c.buffer s, active_size-eq c.buffer s))

  grown : NetworkByteBuffer
  unfolding unread
  grown =
      advance_write (record m { bytes = write_at m.bytes m.write_position unread })
        (active_size c.buffer)

  length-grown : active_size c.buffer < missing → length grown.bytes ≡ length m.bytes
  unfolding grown advance_write
  length-grown h = length-write_at m.bytes m.write_position unread (omega (arith, length-unread))

  write_position-grown :
      active_size c.buffer < missing
      → grown.write_position ≡ m.write_position + active_size c.buffer
  unfolding grown advance_write
  write_position-grown h = omega arith

  bytes-grown : grown.bytes ≡ write_at m.bytes m.write_position unread
  unfolding grown advance_write
  bytes-grown = refl

  progress-grown :
      active_size c.buffer < missing
      → progress (some grown)
        ≡ some
            (take m.write_position m.bytes ++ active c.buffer, missing - length (active c.buffer))
  progress-grown h =
      ground (arith, length-grown h, write_position-grown h, unread-active, length-unread, laid)
    where
      laid : take grown.write_position grown.bytes ≡ take m.write_position m.bytes ++ unread
      laid =
          ap (λ k. take k grown.bytes)
            (write_position-grown h ∙ ap (◌+◌ m.write_position) (sym length-unread))
          ∙ ap (take (m.write_position + length unread)) bytes-grown
          ∙ take_past-write_at m.bytes m.write_position within unread

  fill_short :
      active_size c.buffer < missing
      → view_loop (fill_message c m) ≡ complete (view c) (take m.write_position m.bytes) missing
  unfolding fill_message grown
  fill_short h =
      rw (remaining, lt→ltb (active_size c.buffer) missing h)
        (ground (arith, open_, used_up, progress-grown h)
          ∙ sym (
              complete_short (view c) (take m.write_position m.bytes) missing
                (omega (arith, available))))

  grown-IsPartial : active_size c.buffer < missing → IsPartial (some grown)
  grown-IsPartial h = omega (arith, length-grown h, write_position-grown h)

  taken : List ℕ
  taken = read_at c.buffer.bytes c.buffer.read_position missing

  taken-active : missing ≤ active_size c.buffer → taken ≡ take missing (active c.buffer)
  unfolding taken
  taken-active h =
      ap (λ k. read_at c.buffer.bytes k missing) (omega arith)
      ∙ read_at-active c.buffer s 0 missing (omega (arith, active_size-eq c.buffer s))

  message-taken :
      missing ≤ active_size c.buffer
      → write_at m.bytes m.write_position taken
        ≡ take m.write_position m.bytes ++ take missing (active c.buffer)
  message-taken h =
      write_at-end m.bytes m.write_position taken (omega (arith, measured))
      ∙ ap (◌++◌ (take m.write_position m.bytes)) (taken-active h)
    where
      measured : length taken ≡ missing
      measured =
          ap length (taken-active h)
          ∙ omega (
            arith,
            length-take missing (active c.buffer),
            length-active c.buffer s,
            active_size-eq c.buffer s,
          )

  fill_long :
      missing ≤ active_size c.buffer
      → view_loop (fill_message c m) ≡ complete (view c) (take m.write_position m.bytes) missing
  unfolding fill_message taken
  fill_long h =
      rw (remaining, le→ltb (active_size c.buffer) missing h)
        (ground (
          arith,
          open_,
          message-taken h,
          active-advance c.buffer s missing (omega (arith, active_size-eq c.buffer s)),
        )
          ∙ sym (
              complete_long (view c) (take m.write_position m.bytes) missing
                (omega (arith, available))))

  -- Completing a message is completing it on lists.
  pub fill-refines :
      view_loop (fill_message c m) ≡ complete (view c) (take m.write_position m.bytes) missing
  fill-refines = elim (dec_lt (active_size c.buffer) missing) [
    | yes short ↦ fill_short short
    | no long ↦ fill_long (omega arith)
  ]

  pub fill-IsValid : IsValid (result (fill_message c m))
  unfolding fill_message grown
  fill-IsValid = elim (dec_lt (active_size c.buffer) missing) [
    | yes short ↦
        rw (remaining, lt→ltb (active_size c.buffer) missing short)
          (record {
            buffer =
                advance_read-IsSound c.buffer s (active_size c.buffer)
                  (omega (arith, active_size-eq c.buffer s));
            extracted = grown-IsPartial short;
          })
    | no long ↦
        rw (remaining, le→ltb (active_size c.buffer) missing (omega arith))
          (record {
            buffer =
                advance_read-IsSound c.buffer s missing (omega (arith, active_size-eq c.buffer s));
            extracted = tt;
          })
  ]
