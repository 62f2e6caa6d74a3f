-- ===== src/Connection/Shutdown.antt =====
-- rtsp-2/src/protocol/connection/shutdown.rs: the deliberate shutdown of a connection.
pub mod Once
use rtsp_rs.Prelude.{ℕ, zero, suc, ◌+◌, Option, none, some, Bool, true, false}
use rtsp_rs.Connection.{Poll, ready, not_ready, failed}

pub data ShutdownType : Type 0 where
  graceful : ℕ → ShutdownType
  immediate : ShutdownType

pub data ShutdownState : Type 0 where
  running shutdown shutting_down : ShutdownState

-- The answers to a poll of `oneshot::Receiver` and of `Delay`. `timer_error` is any error but that of
-- too many timers.
pub data Initiation : Type 0 where
  initiated : ShutdownType → Initiation
  waiting canceled : Initiation

pub data TimerAnswer : Type 0 where
  elapsed pending at_capacity timer_error : TimerAnswer

-- Of a receiver and a sender the handler knows that it has them, of a timer when it expires.
-- `shutdown_events` counts what has been sent through `tx_shutdown_event`.
pub record ShutdownHandler : Type 0 where
  pub rx_initiate_shutdown : Bool
  pub timer : Option ℕ
  pub tx_shutdown_event : Bool
  pub shutdown_events : ℕ

-- What a poll meets: the time, the answer of the receiver, and that of a timer by its time of expiry.
pub record World : Type 0 where
  pub now : ℕ
  pub initiation : Initiation
  pub timer_at : ℕ → TimerAnswer

-- A poll returns, or panics.
pub data Run (A : Type 0) : Type 0 where
  returned : A → ShutdownHandler → Run A
  panicked out_of_fuel : Run A

unfoldable pub new : ShutdownHandler
new = record {
  rx_initiate_shutdown = true;
  timer = none;
  tx_shutdown_event = true;
  shutdown_events = 0;
}

-- `if let Some(tx_shutdown_event) = self.tx_shutdown_event.take()`.
send_event : Bool → ℕ → ℕ
send_event true events = events + 1
send_event false events = events

unfoldable pub handle_shutdown : ℕ → ShutdownType → ShutdownHandler → ShutdownHandler
unfolding send_event
handle_shutdown now (graceful duration) h = record h {
  rx_initiate_shutdown = false;
  timer = some (now + duration);
}
handle_shutdown now immediate h = record h {
  rx_initiate_shutdown = false;
  timer = none;
  tx_shutdown_event = false;
  shutdown_events = send_event h.tx_shutdown_event h.shutdown_events;
}

-- Also what `drop` does. The time plays no part.
unfoldable pub force_shutdown : ShutdownHandler → ShutdownHandler
unfolding handle_shutdown
force_shutdown h = handle_shutdown 0 immediate h

state_of : Bool → Option ℕ → ShutdownState
state_of true timer = running
state_of false (some _) = shutting_down
state_of false none = shutdown

unfoldable pub state : ShutdownHandler → ShutdownState
unfolding state_of
state h = state_of h.rx_initiate_shutdown h.timer

-- In the state `Running`, in which there is a receiver.
unfoldable pub poll_running : World → ShutdownHandler → Run (Poll (Unit {0}) (Unit {0}))
poll_running world h = elim world.initiation [
  | initiated shutdown_type ↦ returned (ready tt) (handle_shutdown world.now shutdown_type h)
  | canceled ↦ returned (ready tt) (handle_shutdown world.now immediate h)
  | waiting ↦ returned not_ready h
]

-- The `match` on the answer of the timer.
expire : TimerAnswer → ℕ → ShutdownHandler → Run (Poll (Unit {0}) (Unit {0}))
expire elapsed now h = returned (ready tt) (handle_shutdown now immediate h)
expire pending now h = returned not_ready h
expire at_capacity now h = returned (ready tt) (handle_shutdown now immediate h)
expire timer_error now h = panicked

-- `expect` panics without a timer.
poll_timer : Option ℕ → World → ShutdownHandler → Run (Poll (Unit {0}) (Unit {0}))
poll_timer none world h = panicked
poll_timer (some expiry) world h = expire (world.timer_at expiry) world.now h

unfoldable pub poll_shutting_down : World → ShutdownHandler → Run (Poll (Unit {0}) (Unit {0}))
unfolding poll_timer expire
poll_shutting_down world h = poll_timer h.timer world h

-- The `loop` of `poll`, on fuel.
poll_loop : ℕ → World → ShutdownHandler → Run (Poll (Unit {0}) (Unit {0}))
poll_loop zero world h = out_of_fuel
poll_loop (suc fuel) world h = elim (state h) [
  | running ↦ elim (poll_running world h) [
    | returned (ready _) h' ↦ poll_loop fuel world h'
    | returned result h' ↦ returned result h'
    | panicked ↦ panicked
    | out_of_fuel ↦ out_of_fuel
  ]
  | shutting_down ↦ elim (poll_shutting_down world h) [
    | returned (ready _) h' ↦ poll_loop fuel world h'
    | returned result h' ↦ returned result h'
    | panicked ↦ panicked
    | out_of_fuel ↦ out_of_fuel
  ]
  | shutdown ↦ returned (ready tt) h
]

-- A handler runs, shuts down and is shut down: three turns are enough.
unfoldable pub poll : World → ShutdownHandler → Run (Poll (Unit {0}) (Unit {0}))
unfolding poll_loop
poll world h = poll_loop 3 world h
