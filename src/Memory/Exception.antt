-- ===== src/Memory/Exception.antt =====
-- What the code throws: `StreamException` of Memory/Include/Public/StreamException.h, and
-- `TooLongMessageBodyException` of BaseServer/BaseServer/Protocol.
use scalable_cross_platform.Prelude.{ℕ}

pub data StreamType : Type 0 where
  reader writer : StreamType

-- The stack trace and the description, which only a log shows, are left out.
pub record StreamException : Type 0 where
  pub byte_buffer_size : ℕ
  pub stream_type : StreamType
  pub stream_position : ℕ
  pub data_size : ℕ

pub data Exception : Type 0 where
  out_of_bounds : StreamException → Exception
  too_long_message_body : ℕ → Exception

pub data Result {ℓ} (A : Type ℓ) : Type ℓ where
  ok : A → Result A
  thrown : Exception → Result A

infixl 5 ◌>>=◌
abbrev pub ◌>>=◌ {ℓ κ} : {A : Type ℓ} {B : Type κ} → Result A → (A → Result B) → Result B
ok a >>= f = f a
thrown e >>= f = thrown e
