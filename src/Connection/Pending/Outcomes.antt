-- ===== src/Connection/Pending/Outcomes.antt =====
-- rtsp-2/src/protocol/connection/pending.rs: what a poll of `SendRequest` returns, and why.
use rtsp_rs.Prelude.{ℕ, ◌≡◌, Option, none, some, ◌⊎◌}
use rtsp_rs.Response.{Response}
use rtsp_rs.Connection.{ready, not_ready, failed}
use rtsp_rs.Connection.Responses.{continue, no_response, response}
use rtsp_rs.Connection.Shutdown.{TimerAnswer, elapsed, pending, at_capacity, timer_error}
use rtsp_rs.Connection.Pending.{
  SendRequest, World, Run, returned, panicked, OperationError, request_cancelled, request_timed_out,
  long, short, received, waiting, canceled, expiry, cancel_request,
}

module _ {Body Map : Type 0} (world : World Body Map) where
  -- A timer that is there has this answer.
  abbrev pub Answers : TimerAnswer → Option ℕ → Type 0
  Answers answer none = ⊥
  Answers answer (some expires) = world.timer_at expires ≡ answer

  -- A timer that is there is still running.
  abbrev pub IsRunning : Option ℕ → Type 0
  IsRunning none = Unit {0}
  IsRunning (some expires) = world.timer_at expires ≡ pending

  module _ (s : SendRequest) where
    -- The future behind a poll of the channel that has brought no response: the channel had nothing,
    -- and the future is registered with it; or it had the next channel, and the short timer starts
    -- again.
    abbrev pub Waits : SendRequest → Type 0
    Waits w =
        ((world.channel s.rx_response ≡ waiting)
          × (w ≡ record s { registered = some s.rx_response }))
        ⊎ ((rx_response : ℕ) × (world.channel s.rx_response ≡ received (continue rx_response))
            × (w ≡ record s {
              rx_response = rx_response;
              timer = expiry world.now s.timeout_duration;
            }))

    abbrev pub Explained : Run (Response Body Map) → Type 0
    Explained (returned (ready r) s') =
        (world.channel s.rx_response ≡ received (response r)) × (s' ≡ s)
    Explained (returned (failed OperationError.closed) s') = ⊥
    Explained (returned (failed request_cancelled) s') =
        ((world.channel s.rx_response ≡ received no_response) × (s' ≡ s))
        ⊎ ((w : SendRequest) × Waits w
            × (Answers at_capacity w.max_timer
                ⊎ (IsRunning w.max_timer × Answers at_capacity w.timer))
            × (s' ≡ cancel_request w))
    Explained (returned (failed (request_timed_out long)) s') =
        (w : SendRequest) × Waits w × Answers elapsed w.max_timer × (s' ≡ cancel_request w)
    Explained (returned (failed (request_timed_out short)) s') =
        (w : SendRequest) × Waits w
        × IsRunning w.max_timer
        × Answers elapsed w.timer
        × (s' ≡ cancel_request w)
    Explained (returned not_ready s') = Waits s' × IsRunning s'.max_timer × IsRunning s'.timer
    Explained panicked =
        (world.channel s.rx_response ≡ canceled)
        ⊎ ((w : SendRequest) × Waits w
            × (Answers timer_error w.max_timer
                ⊎ (IsRunning w.max_timer × Answers timer_error w.timer)))
