-- ===== src/Network/Framing.antt =====
-- What the receiving side of a connection promises, over plain lists: a stream of bytes is cut into
-- messages, each with its size in front, whatever the pieces in which the bytes come.
pub mod Steps
pub mod Chunks
pub mod Leftover
pub mod Messages
use scalable_cross_platform.Prelude.{
  ℕ, zero, suc, ◌+◌, ◌-◌, ◌%◌, ◌^◌, Bool, true, false, Option, none, some, List, [], ◌∷◌, ◌++◌,
  length, take, drop, ltb, if◌then◌else◌,
}
use scalable_cross_platform.Memory.Bytes.{from_bytes}

-- `partial` is the message under way: the bytes of it that came, and how many are missing.
pub record Framer : Type 0 where
  pub partial : Option (List ℕ × ℕ)
  pub input : List ℕ
  pub closed : Bool
  pub delivered : List (List ℕ)

abbrev pub start : Framer
start = record { partial = none; input = []; closed = false; delivered = [] }

pub data Loop {ℓ} (A : Type ℓ) : Type ℓ where
  stop : A → Loop A
  continue : A → Loop A

abbrev pub header_length : ℕ
header_length = 4

-- The size of a message and its command, which the first four bytes hold.
-- A number of 16 bits.
abbrev pub u16_of : List ℕ → ℕ
u16_of bs = from_bytes bs % 2 ^ 16

abbrev pub header_size_of : List ℕ → ℕ
header_size_of input = u16_of (take 2 input)

abbrev pub header_command_of : List ℕ → ℕ
header_command_of input = u16_of (take 2 (drop 2 input))

unfoldable pub complete : Framer → List ℕ → ℕ → Loop Framer
complete s got missing =
    if ltb (length s.input) missing
    then stop (record s { partial = some (got ++ s.input, missing - length s.input); input = [] })
    else continue (record s {
      partial = none;
      input = drop missing s.input;
      delivered = s.delivered ++ ((got ++ take missing s.input) ∷ []);
    })

module _ (valid : ℕ → ℕ → Bool) where
  unfoldable pub open_message : Framer → Loop Framer
  open_message s =
      if ltb (length s.input) header_length
      then stop s
      else (if valid (header_size_of s.input) (header_command_of s.input)
          then complete (record s { input = drop 2 s.input }) [] (header_size_of s.input)
          else stop (record s { input = []; closed = true }))

  unfoldable pub frame_step : Framer → Loop Framer
  frame_step s = elim s.input [
    | [] ↦ stop s
    | _ ∷ _ ↦ elim s.partial [
      | none ↦ open_message s
      | some (got, missing) ↦ complete s got missing
    ]
  ]

  unfoldable pub frame : ℕ → Framer → Framer
  frame zero s = s
  frame (suc fuel) s = elim (frame_step s) [ stop t ↦ t | continue t ↦ frame fuel t ]

  -- One more byte of fuel than there is input is enough: see Framing/Chunks.
  unfoldable pub settle : Framer → Framer
  settle s = frame (suc (length s.input)) s

  -- A chunk arrives. A closed connection reads no more.
  unfoldable pub feed : Framer → List ℕ → Framer
  feed s chunk = if s.closed then s else settle (record s { input = s.input ++ chunk })

  unfoldable pub feed_all : Framer → List (List ℕ) → Framer
  feed_all s [] = s
  feed_all s (c ∷ cs) = feed_all (feed s c) cs
