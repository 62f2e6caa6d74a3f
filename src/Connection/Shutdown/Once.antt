-- ===== src/Connection/Shutdown/Once.antt =====
-- rtsp-2/src/protocol/connection/shutdown.rs: the states of the handler and its one event.
use rtsp_rs.Prelude.{ℕ, suc, ◌+◌, ◌≤◌, ◌≡◌, ◌≢◌, refl, Option, none, some, Bool, true, false, arith}
use rtsp_rs.Connection.{Poll, ready, not_ready, failed}
use rtsp_rs.Connection.Shutdown.{
  graceful, immediate, ShutdownState, running, shutdown, shutting_down, Initiation, initiated,
  waiting, canceled, TimerAnswer, elapsed, pending, at_capacity, timer_error, ShutdownHandler,
  World, Run, returned, panicked, out_of_fuel, handle_shutdown, force_shutdown, state, state_of,
  poll_running, poll_shutting_down, poll_timer, expire, poll_loop, poll,
}

-- How far a handler is on its way to the shutdown.
abbrev pub rank : ShutdownState → ℕ
rank running = 0
rank shutting_down = 1
rank shutdown = 2

-- A timer is set only behind the receiver, and the event has been sent once exactly when the handler
-- is shut down.
abbrev pub IsWell : ShutdownHandler → Type 0
IsWell h = Fits h.rx_initiate_shutdown h.timer h.tx_shutdown_event h.shutdown_events
  where
    Fits : Bool → Option ℕ → Bool → ℕ → Type 0
    Fits true none true events = events ≡ 0
    Fits false (some _) true events = events ≡ 0
    Fits false none false events = events ≡ 1
    Fits _ _ _ _ = ⊥

-- What a poll of a well-formed handler promises: it ends; done, the handler is shut down; not done, it
-- has not gone back; and it panics only when a timer fails in a way that is no lack of capacity.
abbrev pub Settled : World → ℕ → Run (Poll (Unit {0}) (Unit {0})) → Type 0
Settled world start (returned (ready _) h) = IsWell h × (state h ≡ shutdown)
Settled world start (returned not_ready h) =
    IsWell h × (state h ≢ shutdown) × (start ≤ rank (state h))
Settled world start (returned (failed _) h) = ⊥
Settled world start panicked = (expiry : ℕ) × (world.timer_at expiry ≡ timer_error)
Settled world start out_of_fuel = ⊥

abbrev handler : Bool → Option ℕ → Bool → ℕ → ShutdownHandler
handler rx timer tx events = record {
  rx_initiate_shutdown = rx;
  timer = timer;
  tx_shutdown_event = tx;
  shutdown_events = events;
}

shutting_down-Settled :
    (world : World) (fuel start expiry events : ℕ) (answer : TimerAnswer)
    → events ≡ 0
    → start ≤ 1
    → world.timer_at expiry ≡ answer
    → Settled world start
        (poll_loop (suc (suc fuel)) world (handler false (some expiry) true events))
unfolding poll_loop state state_of poll_shutting_down poll_timer expire handle_shutdown
shutting_down-Settled world fuel start expiry events elapsed none_yet le e =
    rw (Settled, e) (omega arith, refl)
shutting_down-Settled world fuel start expiry events pending none_yet le e =
    rw (Settled, e) (none_yet, (λ p. cc), le)
shutting_down-Settled world fuel start expiry events at_capacity none_yet le e =
    rw (Settled, e) (omega arith, refl)
shutting_down-Settled world fuel start expiry events timer_error none_yet le e =
    rw (Settled, e) (expiry, e)

running-Settled :
    (world : World) (events : ℕ) (initiation : Initiation)
    → events ≡ 0
    → world.initiation ≡ initiation
    → Settled world 0 (poll_loop 3 world (handler true none true events))
unfolding poll_loop state state_of poll_running handle_shutdown
running-Settled world events (initiated (graceful duration)) none_yet e =
    rw (Settled, e)
      (shutting_down-Settled world 0 0 (world.now + duration) events _ none_yet (omega arith) refl)
running-Settled world events (initiated immediate) none_yet e = rw (Settled, e) (omega arith, refl)
running-Settled world events canceled none_yet e = rw (Settled, e) (omega arith, refl)
running-Settled world events waiting none_yet e = rw (Settled, e) (none_yet, (λ p. cc), omega arith)

fields-Settled :
    (world : World) (rx : Bool) (timer : Option ℕ) (tx : Bool) (events : ℕ)
    → IsWell (handler rx timer tx events)
    → Settled world
        (rank (state (handler rx timer tx events)))
        (poll world (handler rx timer tx events))
unfolding poll poll_loop state state_of
fields-Settled world true none true events h = running-Settled world events _ h refl
fields-Settled world false (some expiry) true events h =
    shutting_down-Settled world 1 1 expiry events _ h (omega arith) refl
fields-Settled world false none false events h = (h, refl)
fields-Settled world false none true events h = elim h [ ]
fields-Settled world false (some expiry) false events h = elim h [ ]
fields-Settled world true none false events h = elim h [ ]
fields-Settled world true (some expiry) tx events h = elim h [ ]

-- A poll of a well-formed handler ends. Done, the handler is well formed and shut down; not done, it
-- is well formed, not shut down, and no further from the shutdown than before; and it panics only when
-- a timer fails with an error that is no lack of capacity.
pub poll-Settled :
    (world : World) (h : ShutdownHandler) → IsWell h → Settled world (rank (state h)) (poll world h)
poll-Settled world h w =
    fields-Settled world h.rx_initiate_shutdown h.timer h.tx_shutdown_event h.shutdown_events w

fields-force_shutdown :
    (rx : Bool) (timer : Option ℕ) (tx : Bool) (events : ℕ)
    → IsWell (handler rx timer tx events)
    → IsWell (force_shutdown (handler rx timer tx events))
      × (state (force_shutdown (handler rx timer tx events)) ≡ shutdown)
      × ((force_shutdown (handler rx timer tx events)).shutdown_events ≡ 1)
unfolding force_shutdown handle_shutdown state state_of
fields-force_shutdown true none true events h = (omega arith, refl, omega arith)
fields-force_shutdown false (some expiry) true events h = (omega arith, refl, omega arith)
fields-force_shutdown false none false events h = (h, refl, h)
fields-force_shutdown false none true events h = elim h [ ]
fields-force_shutdown false (some expiry) false events h = elim h [ ]
fields-force_shutdown true none false events h = elim h [ ]
fields-force_shutdown true (some expiry) tx events h = elim h [ ]

-- A forced shutdown of a well-formed handler, and so its drop, leaves it well formed and shut down,
-- with exactly one event sent since it was made, whatever its state was.
pub force_shutdown-shutdown_events :
    (h : ShutdownHandler)
    → IsWell h
    → IsWell (force_shutdown h)
      × (state (force_shutdown h) ≡ shutdown)
      × ((force_shutdown h).shutdown_events ≡ 1)
force_shutdown-shutdown_events h w =
    fields-force_shutdown h.rx_initiate_shutdown h.timer h.tx_shutdown_event h.shutdown_events w
