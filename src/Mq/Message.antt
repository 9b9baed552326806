-- ===== src/Mq/Message.antt =====
-- skynet-src/mq/mq_msg.h: a message between services.
use skynet.Base.{ℕ}

-- `struct service_message`. The session is the bit pattern of an `int`; the payload is known by its
-- address only, and a null pointer is 0; the top byte of `data_size` is the type of the message.
pub record Message : Type 0 where
  pub src_svc_handle : ℕ
  pub session_id : ℕ
  pub data_ptr : ℕ
  pub data_size : ℕ

-- What `new service_message[n]` fills its cells with: the default member initializers.
abbrev pub blank : Message
blank = record { src_svc_handle = 0; session_id = 0; data_ptr = 0; data_size = 0 }
