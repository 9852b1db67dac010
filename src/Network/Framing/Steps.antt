-- ===== src/Network/Framing/Steps.antt =====
-- The rounds of the framer of Network/Framing, one by one: where each of them leads, and that the
-- fuel is enough.
use scalable_cross_platform.Prelude.{
  ℕ, zero, suc, ◌+◌, ◌-◌, ◌≤◌, ◌<◌, ◌≡◌, refl, sym, ap, ◌∙◌, inl, inr, Bool, true, false, Option,
  none, some, List, [], ◌∷◌, ◌++◌, append-nil, append_assoc, arith, length, take, drop,
  nil_of_length, length-append, length-drop, take-append_left, drop-append_left, take-append_right,
  drop-append_right, lt→ltb, le→ltb, Bool-cases,
}
use native.Mathlib.Decide.{dec_lt}
use scalable_cross_platform.Network.Framing.{
  Framer, Loop, stop, continue, header_size_of, header_command_of, complete, open_message,
  frame_step, frame, settle, feed,
}

-- A message under way has bytes missing.
abbrev pub Pending : Option (List ℕ × ℕ) → Type 0
Pending none = Unit {0}
Pending (some (got, missing)) = 0 < missing

abbrev pub append : Framer → List ℕ → Framer
append s b = record s { input = s.input ++ b }

abbrev pub Shrinks : ℕ → Loop Framer → Type 0
Shrinks n (stop t) = Pending t.partial
Shrinks n (continue t) = (length t.input < n) × Pending t.partial

pub complete-Shrinks :
    (s : Framer) (got : List ℕ) (missing n : ℕ)
    → length s.input < n + missing
    → 0 < n
    → Shrinks n (complete s got missing)
unfolding complete
complete-Shrinks s got missing n h k = ground (arith, length-drop missing s.input)

pub complete_nil :
    (s : Framer) (got : List ℕ) (missing : ℕ)
    → length s.input ≡ 0
    → s.partial ≡ some (got, missing)
    → 0 < missing
    → complete s got missing ≡ stop s
unfolding complete
complete_nil s got missing e q h = ground (arith, append-nil got, nil_of_length s.input e)

pub complete-continue :
    (s t : Framer) (got : List ℕ) (missing : ℕ)
    → complete s got missing ≡ continue t
    → (missing + length t.input ≡ length s.input) × (t.closed ≡ s.closed) × (t.partial ≡ none)
unfolding complete
complete-continue s t got missing e = ground (arith, length-drop missing s.input)

-- A message that is still under way, and one that is complete.
abbrev pub waiting : Framer → List ℕ → ℕ → Framer
waiting s got missing = record s {
  partial = some (got ++ s.input, missing - length s.input);
  input = [];
}

abbrev pub completed : Framer → List ℕ → ℕ → Framer
completed s got missing = record s {
  partial = none;
  input = drop missing s.input;
  delivered = s.delivered ++ ((got ++ take missing s.input) ∷ []);
}

pub complete_short :
    (s : Framer) (got : List ℕ) (missing : ℕ)
    → length s.input < missing
    → complete s got missing ≡ stop (waiting s got missing)
unfolding complete
complete_short s got missing h = rw (lt→ltb (length s.input) missing h)

pub complete_long :
    (s : Framer) (got : List ℕ) (missing : ℕ)
    → missing ≤ length s.input
    → complete s got missing ≡ continue (completed s got missing)
unfolding complete
complete_long s got missing h = rw (le→ltb (length s.input) missing h)

pub complete_long-append :
    (s : Framer) (got : List ℕ) (missing : ℕ) (b : List ℕ)
    → missing ≤ length s.input
    → complete (append s b) got missing ≡ continue (append (completed s got missing) b)
complete_long-append s got missing b h =
    complete_long (append s b) got missing (omega (arith, length-append s.input b))
    ∙ rw (take-append_left missing s.input b h, drop-append_left missing s.input b h)

pub complete-merge :
    (s : Framer) (got : List ℕ) (missing : ℕ) (b : List ℕ)
    → length s.input < missing
    → complete (append (waiting s got missing) b) (got ++ s.input) (missing - length s.input)
      ≡ complete (append s b) got missing
complete-merge s got missing b h = elim (dec_lt (length b) (missing - length s.input)) [
  | yes short ↦
      complete_short (append (waiting s got missing) b) (got ++ s.input) (missing - length s.input)
        short
      ∙ ground (
        arith,
        append_assoc got s.input b,
        length-append s.input b,
        complete_short (append s b) got missing (omega (arith, length-append s.input b)),
      )
  | no long ↦
      complete_long (append (waiting s got missing) b) (got ++ s.input) (missing - length s.input)
        (omega arith)
      ∙ ground (
        arith,
        append_assoc got s.input (take (missing - length s.input) b),
        take-append_right missing s.input b (omega arith),
        drop-append_right missing s.input b (omega arith),
        complete_long (append s b) got missing (omega (arith, length-append s.input b)),
      )
]

module _ (valid : ℕ → ℕ → Bool) where
  pub open_message-Shrinks :
      (s : Framer) → s.partial ≡ none → Shrinks (length s.input) (open_message valid s)
  unfolding open_message
  open_message-Shrinks s e = elim (dec_lt (length s.input) 4) [
    | yes short ↦ rw (lt→ltb (length s.input) 4 short) (rw e tt)
    | no long ↦
        rw (le→ltb (length s.input) 4 (omega arith))
          (elim (Bool-cases (valid (header_size_of s.input) (header_command_of s.input))) [
            | inl good ↦ rw good (
                complete-Shrinks (record s { input = drop 2 s.input }) [] (header_size_of s.input)
                  (length s.input) (omega (arith, length-drop 2 s.input)) (omega arith))
            | inr bad ↦ rw (bad, e) tt
          ])
  ]

  pub frame_step_nil : (s : Framer) → length s.input ≡ 0 → frame_step valid s ≡ stop s
  unfolding frame_step
  frame_step_nil s e = ground arith

  pub frame_step_open :
      (s : Framer)
      → 0 < length s.input
      → s.partial ≡ none
      → frame_step valid s ≡ open_message valid s
  unfolding frame_step
  frame_step_open s h q = ground arith

  pub frame_step-complete :
      (s : Framer) (got : List ℕ) (missing : ℕ)
      → 0 < length s.input
      → s.partial ≡ some (got, missing)
      → frame_step valid s ≡ complete s got missing
  unfolding frame_step
  frame_step-complete s got missing h q = ground arith

  pub frame_step-Shrinks :
      (p : Option (List ℕ × ℕ)) (s : Framer)
      → 0 < length s.input
      → s.partial ≡ p
      → Pending p
      → Shrinks (length s.input) (frame_step valid s)
  frame_step-Shrinks none s h q g = rw (frame_step_open s h q) (open_message-Shrinks s q)
  frame_step-Shrinks (some (got, missing)) s h q g =
      rw (frame_step-complete s got missing h q)
        (complete-Shrinks s got missing (length s.input) (omega arith) h)

  -- Two amounts of fuel above the length of the input come to the same.
  pub frame_fuel :
      (f g : ℕ) (s : Framer)
      → length s.input < f
      → length s.input < g
      → Pending s.partial
      → frame valid f s ≡ frame valid g s
  unfolding frame
  frame_fuel zero g s h k p = absurd (omega arith)
  frame_fuel (suc f) zero s h k p = absurd (omega arith)
  frame_fuel (suc f) (suc g) s h k p = elim (dec_lt 0 (length s.input)) [
    | yes some_input ↦
        go (frame_step valid s) (frame_step-Shrinks s.partial s some_input refl p) (frame_fuel f g)
    | no no_input ↦ rw (frame_step_nil s (omega arith), frame)
  ]
    where
      go :
          (l : Loop Framer)
          → Shrinks (length s.input) l
          → ((t : Framer)
              → length t.input < f
              → length t.input < g
              → Pending t.partial
              → frame valid f t ≡ frame valid g t)
          → ◌≡◌ {A = Framer}
              (elim l [ stop t ↦ t | continue t ↦ frame valid f t ])
              (elim l [ stop t ↦ t | continue t ↦ frame valid g t ])
      go (stop t) sh ih = refl
      go (continue t) sh ih = ih t (omega arith) (omega arith) sh.1

  -- What a round leads to in the end.
  abbrev pub resume : Loop Framer → Framer
  resume (stop t) = t
  resume (continue t) = settle valid t

  pub settle-resume :
      (s : Framer) → Pending s.partial → settle valid s ≡ resume (frame_step valid s)
  unfolding settle frame
  settle-resume s p = elim (dec_lt 0 (length s.input)) [
    | yes some_input ↦ go (frame_step valid s) (frame_step-Shrinks s.partial s some_input refl p)
    | no no_input ↦ rw (frame_step_nil s (omega arith), frame)
  ]
    where
      go :
          (l : Loop Framer)
          → Shrinks (length s.input) l
          → ◌≡◌ {A = Framer}
              (elim l [ stop t ↦ t | continue t ↦ frame valid (length s.input) t ])
              (resume l)
      go (stop t) sh = refl
      go (continue t) sh =
          frame_fuel (length s.input) (suc (length t.input)) t sh.0 (omega arith) sh.1

  -- A message under way is completed by what there is, be it nothing.
  pub settle-complete :
      (s : Framer) (got : List ℕ) (missing : ℕ)
      → s.partial ≡ some (got, missing)
      → 0 < missing
      → settle valid s ≡ resume (complete s got missing)
  settle-complete s got missing e h = elim (dec_lt 0 (length s.input)) [
    | yes some_input ↦
        settle-resume s (rw e h) ∙ ap resume (frame_step-complete s got missing some_input e)
    | no no_input ↦
        settle-resume s (rw e h)
        ∙ ap resume
            (frame_step_nil s (omega arith) ∙ sym (complete_nil s got missing (omega arith) e h))
  ]

  pub settle-open :
      (s : Framer)
      → s.partial ≡ none
      → 0 < length s.input
      → settle valid s ≡ resume (open_message valid s)
  settle-open s e h = settle-resume s (rw e tt) ∙ ap resume (frame_step_open s h e)

  pub feed_open :
      (s : Framer) (b : List ℕ) → s.closed ≡ false → feed valid s b ≡ settle valid (append s b)
  unfolding feed
  feed_open s b e = rw e

  pub feed_closed : (s : Framer) (b : List ℕ) → s.closed ≡ true → feed valid s b ≡ s
  unfolding feed
  feed_closed s b e = rw e

  pub open_message-short : (s : Framer) → length s.input < 4 → open_message valid s ≡ stop s
  unfolding open_message
  open_message-short s h = rw (lt→ltb (length s.input) 4 h)

  pub open_message-good :
      (s : Framer)
      → 4 ≤ length s.input
      → valid (header_size_of s.input) (header_command_of s.input) ≡ true
      → open_message valid s
        ≡ complete (record s { input = drop 2 s.input }) [] (header_size_of s.input)
  unfolding open_message
  open_message-good s h g = rw (le→ltb (length s.input) 4 h, g)

  pub open_message-bad :
      (s : Framer)
      → 4 ≤ length s.input
      → valid (header_size_of s.input) (header_command_of s.input) ≡ false
      → open_message valid s ≡ stop (record s { input = []; closed = true })
  unfolding open_message
  open_message-bad s h g = rw (le→ltb (length s.input) 4 h, g)
