-- ===== src/Connection.antt =====
-- rtsp-2/src/protocol/connection: the tasks of a connection. What they poll (channels, timers, the
-- stream of messages) belongs to other crates: a poll of a task takes the answers as arguments.
pub mod Table
pub mod Forwarding
pub mod Shutdown
pub mod Responses
pub mod Receiver
pub mod Handler
pub mod Sender
pub mod Pending
use rtsp_rs.Prelude.{◌≡◌, refl, ◌⊎◌, inl, inr, Bool, true, false}

-- `Poll` of futures 0.1.
pub data Poll (A E : Type 0) : Type 0 where
  ready : A → Poll A E
  not_ready : Poll A E
  failed : E → Poll A E

abbrev pub has_failed : {A E : Type 0} → Poll A E → Bool
has_failed (failed _) = true
has_failed _ = false

-- The answer of a bounded channel to `start_send`.
pub data SendAnswer : Type 0 where
  accepted full disconnected : SendAnswer

pub SendAnswer-cases :
    (answer : SendAnswer) → (answer ≡ accepted) ⊎ (answer ≡ full) ⊎ (answer ≡ disconnected)
SendAnswer-cases accepted = inl refl
SendAnswer-cases full = inr (inl refl)
SendAnswer-cases disconnected = inr (inr refl)
