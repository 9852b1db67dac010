-- ===== src/Game/Session.antt =====
-- GameServer/GameServer/SessionHook.cpp and Session.cpp, with the registry of
-- BaseServer/BaseServer/Protocol/Include/Public/MessageHandlerRegistry.h: how a message goes from the
-- connection to its handler.
pub mod Dispatch
pub mod Received
mod Tests
use scalable_cross_platform.Prelude.{
  ℕ, zero, suc, ◌%◌, ◌^◌, Bool, true, false, ◌&&◌, not, Option, none, some, List, [], ◌∷◌, ◌++◌,
  length, take, leb, ltb, ◌==◌, if◌then◌else◌,
}
use scalable_cross_platform.Memory.Bytes.{from_bytes}
use scalable_cross_platform.Memory.Exception.{Exception, ok, thrown}
use scalable_cross_platform.Memory.Stream.{Stream, u16, get}
use scalable_cross_platform.Protocol.Opcodes.{
  client_code, c_keep_alive, c_time_request, client_opcode_size,
}

-- `PreprocessedMessage`.
pub record PreprocessedMessage : Type 0 where
  pub data_bytes : List ℕ
  pub metadata : ℕ

-- `SessionHook::IsValidHeader`.
unfoldable pub is_valid_header : ℕ → ℕ → Bool
is_valid_header message_size opcode = leb message_size 14 && ltb opcode client_opcode_size

-- `SessionHook::ProcessReceivedMessage` on the queue of the connection hook. `time` is what
-- `GetTimeInMilliseconds` returns, and the opcode is what the first two bytes hold. No other handler
-- reads the metadata, which stands as 0 where it is not set.
unfoldable pub process_received_message :
    ℕ → List PreprocessedMessage → List ℕ → List PreprocessedMessage
process_received_message time queue message =
    let opcode = from_bytes (take 2 message) % 2 ^ 16 in
    if opcode == client_code c_keep_alive
    then queue
    else queue
      ++ (record {
        data_bytes = message;
        metadata = if opcode == client_code c_time_request then time else 0;
      }
          ∷ [])

-- What a handler does to the state: it returns a Boolean, or a read of the stream throws.
pub data Answer (S : Type 0) : Type 0 where
  handled : Bool → S → Answer S
  stream_exception : S → Answer S

module _ (S : Type 0) where
  abbrev pub Handler : Type 0
  Handler = S → Stream → ℕ → Answer S

  -- What the registry gives: `nullptr`, an entry of the array, or a read behind its end.
  pub data Registered : Type 0 where
    null_handler past_end : Registered
    registered : Handler → Registered

  unfoldable pub entry : List Handler → ℕ → Registered
  entry [] n = past_end
  entry (h ∷ hs) zero = registered h
  entry (h ∷ hs) (suc n) = entry hs n

  -- `MessageHandlerRegistry::GetMessageHandler`.
  unfoldable pub get_message_handler : List Handler → ℕ → Registered
  get_message_handler handlers opcode =
      if ltb (length handlers) opcode then null_handler else entry handlers opcode

  -- How `Session::Update` ends: the state, the messages that are left, and `result`; or an exception
  -- that it does not catch; or a call of what is no handler.
  pub data Outcome : Type 0 where
    finished : S → List PreprocessedMessage → Bool → Outcome
    escaped : Exception → Outcome
    crashed : Outcome

  -- The loop of `Session::Update`, which is run at most so many times.
  unfoldable pub process_messages : List Handler → ℕ → S → List PreprocessedMessage → Outcome
  process_messages handlers zero s queue = finished s queue true
  process_messages handlers (suc n) s [] = finished s [] true
  process_messages handlers (suc n) s (m ∷ queue) =
      elim (get (record { bytes = m.data_bytes; position = 0 }) u16) [
        | thrown e ↦ escaped e
        | ok (opcode, reader) ↦ elim (get_message_handler handlers (opcode.pattern_bits % 2 ^ 16)) [
          | null_handler ↦ crashed
          | past_end ↦ crashed
          | registered h ↦ elim (h s reader m.metadata) [
            | handled true t ↦ process_messages handlers n t queue
            | handled false t ↦ finished t queue false
            | stream_exception t ↦ process_messages handlers n t queue
          ]
        ]
      ]

  -- `Session::Update`.
  unfoldable pub update_session : List Handler → ℕ → Bool → S → List PreprocessedMessage → Outcome
  update_session handlers most is_open s queue = elim (process_messages handlers most s queue) [
    | finished t rest result ↦ finished t rest (result && is_open)
    | escaped e ↦ escaped e
    | crashed ↦ crashed
  ]
