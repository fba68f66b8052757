-- ===== src/Io/Epoll/Tests.antt =====
-- Waits on a few attempts.
use usn_hft_sim.Base.{◌≡◌, refl, false, List, [], ◌∷◌}
use usn_hft_sim.Base.Ints.{pos, eintr}
use usn_hft_sim.Io.Epoll.{
  EpollWaitOptions, Event, ready, failed, Attempt, wait_with_options, wait_loop, next_wait,
  interval, on_reply, on_no_event, on_error,
}
use usn_hft_sim.Io.Status.Unified.{wait-Directs, Directs}

abbrev options : EpollWaitOptions
options = record { timeout_ms = pos 3; poll_interval_ms = pos 2 }

abbrev event : Event
event = record { fd = 7; events = 1 }

abbrev idle : Attempt
idle = record { reply = ready []; is_cancelled = false }

abbrev interrupted : Attempt
interrupted = record { reply = failed eintr; is_cancelled = false }

abbrev some_events : Attempt
some_events = record { reply = ready (event ∷ []); is_cancelled = false }

abbrev attempts : List Attempt
attempts = idle ∷ interrupted ∷ some_events ∷ idle ∷ []

-- The timeout of 3 ms passes with waits of 2 and 1, so the third attempt is not made.
waits_in_steps : (wait_with_options options false attempts).waits ≡ 2 ∷ 1 ∷ []
unfolding wait_with_options wait_loop next_wait interval on_reply on_no_event on_error
waits_in_steps = refl

wait-Directs_example : Directs (wait_with_options options false (idle ∷ some_events ∷ [])).outcome
wait-Directs_example = wait-Directs options false (idle ∷ some_events ∷ [])
