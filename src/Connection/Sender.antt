-- ===== src/Connection/Sender.antt =====
-- rtsp-2/src/protocol/connection/sender.rs: `Sender`, which hands messages to the sink of the
-- connection. It does not look into a message; that it inserts the header `Date` is an argument.
pub mod Delivery
use rtsp_rs.Prelude.{ℕ, ◌+◌, List, [], ◌∷◌, ◌++◌, Option, none, some, Bool, if◌then◌else◌}
use rtsp_rs.Connection.{Poll, ready, not_ready, failed}

-- The answer of a sink to `start_send`.
pub data SinkAnswer (E : Type 0) : Type 0 where
  taken refused : SinkAnswer E
  error : E → SinkAnswer E

-- `rx_outgoing_message` has the messages in the channel, `sink` those that the sink has taken.
pub record Sender (M : Type 0) : Type 0 where
  pub buffered_message : Option M
  pub rx_outgoing_message : List M
  pub sink : List M

-- What a poll meets: the answers of the sink, the one to `start_send` by the number of the call, and
-- whether the channel has ended behind its messages.
pub record World (M E : Type 0) : Type 0 where
  pub insert_date : M → M
  pub start_send : ℕ → SinkAnswer E
  pub poll_complete : Poll (Unit {0}) E
  pub close : Poll (Unit {0}) E
  pub ended : Bool

-- The macro `try_ready!`.
unfoldable pub try_ready : {A B S E : Type 0} → Poll A E × S → (S → Poll B E × S) → Poll B E × S
try_ready (ready _, s) rest = rest s
try_ready (not_ready, s) rest = (not_ready, s)
try_ready (failed e, s) rest = (failed e, s)

unfoldable pub new : {M : Type 0} → Sender M
new = record { buffered_message = none; rx_outgoing_message = []; sink = [] }

-- Behind the messages of the channel: a flush, if it has not ended.
unfoldable pub flush : {E : Type 0} → Poll (Unit {0}) E → Poll (Unit {0}) E
flush (failed e) = failed e
flush _ = not_ready

module _ {M E : Type 0} where
  -- With the answer of the sink.
  unfoldable pub try_send_message : SinkAnswer E → M → Sender M → Poll (Unit {0}) E × Sender M
  try_send_message taken message s = (ready tt, record s { sink = s.sink ++ (message ∷ []) })
  try_send_message refused message s = (not_ready, record s { buffered_message = some message })
  try_send_message (error e) message s = (failed e, s)

  -- The loop of `poll_write`, over the messages in the channel. `k` counts the calls of `start_send`.
  unfoldable pub write_loop : World M E → ℕ → List M → Sender M → Poll (Unit {0}) E × Sender M
  write_loop world k [] s = if world.ended then (ready tt, s) else (flush world.poll_complete, s)
  write_loop world k (message ∷ messages) s =
      try_ready
        (try_send_message (world.start_send k) (world.insert_date message)
          (record s { rx_outgoing_message = messages }))
        (λ s'. write_loop world (k + 1) messages s')

  unfoldable pub poll_write : World M E → ℕ → Sender M → Poll (Unit {0}) E × Sender M
  poll_write world k s = write_loop world k s.rx_outgoing_message s

  unfoldable pub write_and_close : World M E → ℕ → Sender M → Poll (Unit {0}) E × Sender M
  write_and_close world k s = try_ready (poll_write world k s) (λ s'. (world.close, s'))

  -- `poll` behind the `take` of the buffered message.
  unfoldable pub poll_buffered : World M E → Option M → Sender M → Poll (Unit {0}) E × Sender M
  poll_buffered world none s = write_and_close world 0 s
  poll_buffered world (some message) s =
      try_ready (try_send_message (world.start_send 0) message s) (λ s'. write_and_close world 1 s')

  unfoldable pub poll : World M E → Sender M → Poll (Unit {0}) E × Sender M
  poll world s = poll_buffered world s.buffered_message (record s { buffered_message = none })
