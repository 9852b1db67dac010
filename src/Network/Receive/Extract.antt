-- ===== src/Network/Receive/Extract.antt =====
-- `ExtractMessages` against the framer.
use scalable_cross_platform.Prelude.{
  ℕ, zero, suc, ◌+◌, ◌-◌, ◌^◌, ◌≤◌, ◌<◌, ◌≡◌, refl, sym, ap, ◌∙◌, inl, inr, Bool, true, false,
  Option, none, some, [], arith, length, take, drop, lt→ltb, le→ltb, Bool-cases,
}
use mathlib.Core.Path.{ap₂}
use native.Mathlib.Decide.{dec_lt}
use scalable_cross_platform.Memory.Bytes.{read_at}
use scalable_cross_platform.Memory.Buffer.{resize, length-resize}
use scalable_cross_platform.Network.Buffer.{
  NetworkByteBuffer, empty_buffer, IsSound, active_size, advance_read, active_size-eq,
}
use scalable_cross_platform.Network.Framing.{
  Framer, Loop, stop, continue, header_size_of, header_command_of, u16_of, complete, open_message,
  frame_step, frame, settle,
}
use scalable_cross_platform.Network.Framing.Steps.{
  frame_step_nil, frame_step_open, frame_step-complete, open_message-short, open_message-good,
  open_message-bad,
}
use scalable_cross_platform.Network.Receive.{
  Receiver, close, fill_message, start_message, extract_step, extract, extract_messages,
}
use scalable_cross_platform.Network.Receive.Active.{
  active, progress, view, IsPartial, IsValid, length-active, read_at-active, active-advance,
  advance_read-IsSound,
}
use scalable_cross_platform.Network.Receive.Refine.{view_loop, result, fill-refines, fill-IsValid}

module _ (junk : ℕ → ℕ) (valid : ℕ → ℕ → Bool) where
  module _ (c : Receiver) (v : IsValid c) (open_ : c.closed ≡ false) where
    input-active : (view c).input ≡ active c.buffer
    input-active = rw open_

    length-input : length (view c).input ≡ active_size c.buffer
    length-input =
        ap length input-active
        ∙ length-active c.buffer v.buffer
        ∙ sym (active_size-eq c.buffer v.buffer)

    size_read :
        4 ≤ active_size c.buffer
        → u16_of (read_at c.buffer.bytes c.buffer.read_position 2) ≡ header_size_of (view c).input
    size_read h = ap u16_of (
        ap (λ k. read_at c.buffer.bytes k 2) (omega arith)
        ∙ read_at-active c.buffer v.buffer 0 2 (omega (arith, active_size-eq c.buffer v.buffer))
        ∙ ap (take 2) (sym input-active))

    command_read :
        4 ≤ active_size c.buffer
        → u16_of (read_at c.buffer.bytes (c.buffer.read_position + 2) 2)
          ≡ header_command_of (view c).input
    command_read h = ap u16_of (
        read_at-active c.buffer v.buffer 2 2 (omega (arith, active_size-eq c.buffer v.buffer))
        ∙ ap (λ i. take 2 (drop 2 i)) (sym input-active))

    abbrev past_size : Receiver
    past_size = record c { buffer = advance_read c.buffer 2 }

    past_size-IsSound : 4 ≤ active_size c.buffer → IsSound past_size.buffer
    past_size-IsSound h =
        advance_read-IsSound c.buffer v.buffer 2 (omega (arith, active_size-eq c.buffer v.buffer))

    past_size-view :
        4 ≤ active_size c.buffer
        → view past_size ≡ record (view c) { input = drop 2 (view c).input }
    past_size-view h = rw open_ (
        ground (
          arith,
          active-advance c.buffer v.buffer 2 (omega (arith, active_size-eq c.buffer v.buffer)),
        ))

    abbrev fresh : NetworkByteBuffer
    fresh = record empty_buffer {
      bytes = resize junk [] (u16_of (read_at c.buffer.bytes c.buffer.read_position 2));
    }

    start_short : active_size c.buffer < 4 → start_message junk valid c ≡ stop c
    unfolding start_message
    start_short h = rw (lt→ltb (active_size c.buffer) 4 h)

    start_good :
        4 ≤ active_size c.buffer
        → valid (header_size_of (view c).input) (header_command_of (view c).input) ≡ true
        → start_message junk valid c ≡ fill_message past_size fresh
    unfolding start_message
    start_good h g =
        rw (le→ltb (active_size c.buffer) 4 h, ap₂ valid (size_read h) (command_read h) ∙ g)

    start_bad :
        4 ≤ active_size c.buffer
        → valid (header_size_of (view c).input) (header_command_of (view c).input) ≡ false
        → start_message junk valid c ≡ stop (close past_size)
    unfolding start_message
    start_bad h g =
        rw (le→ltb (active_size c.buffer) 4 h, ap₂ valid (size_read h) (command_read h) ∙ g)

    length-fresh : 4 ≤ active_size c.buffer → length fresh.bytes ≡ header_size_of (view c).input
    length-fresh h = length-resize junk [] _ ∙ size_read h

    fresh_small : 4 ≤ active_size c.buffer → length fresh.bytes < 2 ^ 63
    fresh_small h = omega (arith, length-fresh h)

    fill_fresh :
        4 ≤ active_size c.buffer
        → view_loop (fill_message past_size fresh)
          ≡ complete
              (record (view c) { input = drop 2 (view c).input })
              []
              (header_size_of (view c).input)
    fill_fresh h =
        fill-refines past_size fresh (past_size-IsSound h) open_ (omega arith) (fresh_small h)
        ∙ rw (past_size-view h) (
            ap (complete (record (view c) { input = drop 2 (view c).input }) [])
              (omega (arith, length-fresh h)))

    -- What a round comes to, seen on lists, and that it keeps the connection sound.
    abbrev Refines : Loop Receiver → Loop Framer → Type 0
    Refines l k = (view_loop l ≡ k) × IsValid (result l)

    start-Refines :
        c.extracted ≡ none → Refines (start_message junk valid c) (open_message valid (view c))
    unfolding close
    start-Refines e = elim (dec_lt (active_size c.buffer) 4) [
      | yes short ↦
          rw (start_short short, open_message-short valid (view c) (omega (arith, length-input)))
            (refl, v)
      | no long ↦
          elim (Bool-cases
            (valid (header_size_of (view c).input) (header_command_of (view c).input))) [
              | inl good ↦
                  rw
                    (
                      start_good (omega arith) good,
                      open_message-good valid (view c) (omega (arith, length-input)) good,
                    )
                    (
                      fill_fresh (omega arith),
                      fill-IsValid past_size fresh (past_size-IsSound (omega arith)) open_
                          (omega arith) (fresh_small (omega arith)),
                    )
              | inr bad ↦
                  rw
                    (
                      start_bad (omega arith) bad,
                      open_message-bad valid (view c) (omega (arith, length-input)) bad,
                    )
                    (
                      ground (arith, open_),
                      record { buffer = past_size-IsSound (omega arith); extracted = v.extracted },
                    )
            ]
    ]

    step_idle : active_size c.buffer ≡ 0 → extract_step junk valid c ≡ stop c
    unfolding extract_step
    step_idle h = ground arith

    step_start :
        0 < active_size c.buffer
        → c.extracted ≡ none
        → extract_step junk valid c ≡ start_message junk valid c
    unfolding extract_step
    step_start h e = ground arith

    step_fill :
        (m : NetworkByteBuffer)
        → 0 < active_size c.buffer
        → c.extracted ≡ some m
        → extract_step junk valid c ≡ fill_message c m
    unfolding extract_step
    step_fill m h e = ground arith

    step-Refines_at :
        (x : Option NetworkByteBuffer)
        → c.extracted ≡ x
        → IsPartial x
        → 0 < active_size c.buffer
        → Refines (extract_step junk valid c) (frame_step valid (view c))
    step-Refines_at none e p h =
        rw
          (
            step_start h e,
            frame_step_open valid (view c) (omega (arith, length-input)) (ap progress e),
          )
          (start-Refines e)
    step-Refines_at (some m) e p h =
        rw
          (
            step_fill m h e,
            frame_step-complete valid (view c) (take m.write_position m.bytes)
                (length m.bytes - m.write_position) (omega (arith, length-input)) (ap progress e),
          )
          (
            fill-refines c m v.buffer open_ (omega arith) p.1,
            fill-IsValid c m v.buffer open_ (omega arith) p.1,
          )

    pub step-Refines : Refines (extract_step junk valid c) (frame_step valid (view c))
    step-Refines = elim (dec_lt 0 (active_size c.buffer)) [
      | yes some_input ↦ step-Refines_at c.extracted refl v.extracted some_input
      | no no_input ↦
          rw (step_idle (omega arith), frame_step_nil valid (view c) (omega (arith, length-input)))
            (refl, v)
    ]

  step_continue-closed :
      (c d : Receiver) → extract_step junk valid c ≡ continue d → d.closed ≡ c.closed
  unfolding extract_step start_message fill_message
  step_continue-closed c d e = ground arith

  -- The loop on positions is the loop on lists, for any fuel.
  pub extract-refines :
      (f : ℕ) (c : Receiver)
      → IsValid c
      → c.closed ≡ false
      → (view (extract junk valid f c) ≡ frame valid f (view c)) × IsValid (extract junk valid f c)
  unfolding extract frame
  extract-refines zero c v open_ = (refl, v)
  extract-refines (suc f) c v open_ =
      go (extract_step junk valid c) (step-Refines c v open_).0 (step-Refines c v open_).1
        (step_continue-closed c) (extract-refines f)
    where
      go :
          (l : Loop Receiver)
          → view_loop l ≡ frame_step valid (view c)
          → IsValid (result l)
          → ((d : Receiver) → l ≡ continue d → d.closed ≡ c.closed)
          → ((d : Receiver)
              → IsValid d
              → d.closed ≡ false
              → (view (extract junk valid f d) ≡ frame valid f (view d))
                × IsValid (extract junk valid f d))
          → let r : Receiver = elim l [ stop d ↦ d | continue d ↦ extract junk valid f d ] in
            (view r
              ≡ elim (frame_step valid (view c)) [ stop t ↦ t | continue t ↦ frame valid f t ])
            × IsValid r
      go (stop d) e w same ih = (rw (← e), w)
      go (continue d) e w same ih = let (p, q) = ih d w (same d refl ∙ open_) in (rw (← e) p, q)

  -- `ExtractMessages` on a connection that is open delivers what the framer delivers, and leaves a
  -- sound connection.
  pub extract_messages-refines :
      (c : Receiver)
      → IsValid c
      → c.closed ≡ false
      → (view (extract_messages junk valid c) ≡ settle valid (view c))
        × IsValid (extract_messages junk valid c)
  unfolding extract_messages settle
  extract_messages-refines c v open_ =
      rw (length-input c v open_) (extract-refines (suc (active_size c.buffer)) c v open_)
