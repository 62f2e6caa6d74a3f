-- ===== src/Connection/Pending/Polls.antt =====
-- rtsp-2/src/protocol/connection/pending.rs: a poll of `SendRequest` by the answers that it meets.
use rtsp_rs.Prelude.{ℕ, ◌≡◌, refl, ap, Option, none, some}
use rtsp_rs.Connection.{not_ready}
use rtsp_rs.Connection.Pending.{
  SendRequest, World, returned, ChannelAnswer, answered, poll_request, timed, poll_a_timer,
  poll_timers, polled, poll,
}
use rtsp_rs.Connection.Pending.Outcomes.{IsRunning}

module _ {Body Map : Type 0} (world : World Body Map) where
  pub running_timers :
      (w : SendRequest) (max_timer timer : Option ℕ)
      → w.max_timer ≡ max_timer
      → w.timer ≡ timer
      → IsRunning world max_timer
      → IsRunning world timer
      → poll_timers world w ≡ returned not_ready w
  unfolding poll_timers poll_a_timer timed
  running_timers w none none e f h k = rw (e, f) refl
  running_timers w none (some t) e f h k = rw (e, f, k) refl
  running_timers w (some t) none e f h k = rw (e, f, h) refl
  running_timers w (some t) (some u) e f h k = rw (e, f, h, k) refl

  pub poll_of :
      (s : SendRequest) (a : ChannelAnswer Body Map)
      → world.channel s.rx_response ≡ a
      → poll world s ≡ polled world (answered world a s)
  unfolding poll poll_request
  poll_of s a e = ap (λ a. polled world (answered world a s)) e
