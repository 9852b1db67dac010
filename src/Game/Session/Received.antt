-- ===== src/Game/Session/Received.antt =====
-- From the connection to the handlers: what the session hook lets through and queues.
use scalable_cross_platform.Prelude.{
  ℕ, ◌%◌, ◌^◌, ◌<◌, ◌≡◌, inl, inr, Bool, true, List, [], ◌∷◌, ◌++◌, arith, length, take, All, ◌==◌,
  Bool-cases,
}
use scalable_cross_platform.Memory.Bytes.{from_bytes}
use scalable_cross_platform.Protocol.Opcodes.{client_code, c_keep_alive, client_opcode_size}
use scalable_cross_platform.Network.Framing.Messages.{IsSendable}
use scalable_cross_platform.Game.Session.{
  PreprocessedMessage, is_valid_header, process_received_message, Handler, update_session,
}
use scalable_cross_platform.Game.Session.Dispatch.{
  IsDispatchable, Finishes, update_session-Finishes,
}

-- `ProcessReceivedMessage` on one message after the other.
unfoldable pub receive_messages :
    ℕ → List PreprocessedMessage → List (List ℕ) → List PreprocessedMessage
receive_messages time queue [] = queue
receive_messages time queue (body ∷ bodies) =
    receive_messages time (process_received_message time queue body) bodies

snoc-All :
    (size : ℕ) (queue : List PreprocessedMessage) (m : PreprocessedMessage)
    → All (IsDispatchable size) queue
    → IsDispatchable size m
    → All (IsDispatchable size) (queue ++ (m ∷ []))
snoc-All size [] m d k = (k, tt)
snoc-All size (x ∷ queue) m d k = (d.0, snoc-All size queue m d.1 k)

valid_header-known : (n opcode : ℕ) → is_valid_header n opcode ≡ true → opcode < client_opcode_size
unfolding is_valid_header
valid_header-known n opcode e = ground arith

process-IsDispatchable :
    (time : ℕ) (queue : List PreprocessedMessage) (body : List ℕ)
    → All (IsDispatchable client_opcode_size) queue
    → IsSendable is_valid_header body
    → All (IsDispatchable client_opcode_size) (process_received_message time queue body)
unfolding process_received_message
process-IsDispatchable time queue body d b =
    elim (Bool-cases (from_bytes (take 2 body) % 2 ^ 16 == client_code c_keep_alive)) [
      | inl e ↦ rw e d
      | inr e ↦ rw e (
          snoc-All client_opcode_size queue _ d (record {
            has_opcode = b.has_opcode;
            known = valid_header-known (length body) (from_bytes (take 2 body) % 2 ^ 16) b.accepted;
          }))
    ]

receive_messages-IsDispatchable :
    (time : ℕ) (bodies : List (List ℕ)) (queue : List PreprocessedMessage)
    → All (IsDispatchable client_opcode_size) queue
    → All (IsSendable is_valid_header) bodies
    → All (IsDispatchable client_opcode_size) (receive_messages time queue bodies)
unfolding receive_messages
receive_messages-IsDispatchable time [] queue d b = d
receive_messages-IsDispatchable time (body ∷ bodies) queue d b =
    receive_messages-IsDispatchable time bodies _ (process-IsDispatchable time queue body d b.0) b.1

-- Messages that each hold an opcode and have a header that the session hook accepts are queued by the
-- hook so that, with one handler for each client opcode, an update of the session ends without an
-- exception and without a call of what is no handler. It processes at most as many of the queued
-- messages as it may, from the front, and leaves the others.
pub received_messages-Finishes :
    (S : Type 0) (handlers : List (Handler S)) (time most : ℕ) (is_open : Bool) (s : S)
    (bodies : List (List ℕ))
    → length handlers ≡ client_opcode_size
    → All (IsSendable is_valid_header) bodies
    → Finishes S handlers most
        (receive_messages time [] bodies)
        (update_session S handlers most is_open s (receive_messages time [] bodies))
received_messages-Finishes S handlers time most is_open s bodies e b =
    update_session-Finishes S handlers most is_open s (receive_messages time [] bodies)
      (rw e (receive_messages-IsDispatchable time bodies [] tt b))
