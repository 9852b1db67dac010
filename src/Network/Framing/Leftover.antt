-- ===== src/Network/Framing/Leftover.antt =====
-- What the framer leaves unread is less than a header.
use scalable_cross_platform.Prelude.{
  ℕ, zero, suc, ◌<◌, ◌≡◌, refl, inl, inr, Bool, Option, none, some, List, [], arith, length, drop,
  Bool-cases,
}
use native.Mathlib.Decide.{dec_lt}
use scalable_cross_platform.Network.Framing.{
  Framer, Loop, stop, continue, header_size_of, header_command_of, complete, open_message,
  frame_step, frame, settle,
}
use scalable_cross_platform.Network.Framing.Steps.{
  Pending, Shrinks, frame_step_nil, frame_step_open, frame_step-complete, frame_step-Shrinks,
  open_message-short, open_message-good, open_message-bad,
}

abbrev Leaves : Loop Framer → Type 0
Leaves (stop t) = length t.input < 4
Leaves (continue t) = Unit {0}

complete-Leaves : (s : Framer) (got : List ℕ) (missing : ℕ) → Leaves (complete s got missing)
unfolding complete
complete-Leaves s got missing = ground arith

module _ (valid : ℕ → ℕ → Bool) where
  open_message-Leaves : (s : Framer) → Leaves (open_message valid s)
  unfolding open_message
  open_message-Leaves s = elim (dec_lt (length s.input) 4) [
    | yes short ↦ rw (open_message-short valid s short) short
    | no long ↦ elim (Bool-cases (valid (header_size_of s.input) (header_command_of s.input))) [
      | inl good ↦
          rw (open_message-good valid s (omega arith) good)
            (complete-Leaves (record s { input = drop 2 s.input }) [] (header_size_of s.input))
      | inr bad ↦ rw (open_message-bad valid s (omega arith) bad) (omega arith)
    ]
  ]

  frame_step-Leaves :
      (p : Option (List ℕ × ℕ)) (s : Framer)
      → s.partial ≡ p
      → 0 < length s.input
      → Leaves (frame_step valid s)
  frame_step-Leaves none s e h = rw (frame_step_open valid s h e) (open_message-Leaves s)
  frame_step-Leaves (some (got, missing)) s e h =
      rw (frame_step-complete valid s got missing h e) (complete-Leaves s got missing)

  frame-leftover :
      (f : ℕ) (s : Framer)
      → length s.input < f
      → Pending s.partial
      → length (frame valid f s).input < 4
  unfolding frame
  frame-leftover zero s h p = absurd (omega arith)
  frame-leftover (suc f) s h p = elim (dec_lt 0 (length s.input)) [
    | yes some_input ↦
        go (frame_step valid s) (frame_step-Shrinks valid s.partial s some_input refl p)
          (frame_step-Leaves s.partial s refl some_input) (frame-leftover f)
    | no no_input ↦ rw (frame_step_nil valid s (omega arith), frame) (omega arith)
  ]
    where
      go :
          (l : Loop Framer)
          → Shrinks (length s.input) l
          → Leaves l
          → ((t : Framer)
              → length t.input < f
              → Pending t.partial
              → length (frame valid f t).input < 4)
          → let r : Framer = elim l [ stop t ↦ t | continue t ↦ frame valid f t ] in
            length r.input < 4
      go (stop t) sh lv ih = lv
      go (continue t) sh lv ih = ih t (omega arith) sh.1

  -- After the bytes at hand are dealt with, at most three of them are left.
  pub settle-leftover : (s : Framer) → Pending s.partial → length (settle valid s).input < 4
  unfolding settle
  settle-leftover s p = frame-leftover (suc (length s.input)) s (omega arith) p
