-- ===== src/Io/Status/Unified.antt =====
-- The unified view of a wait says what the loop that asked for it has to do.
use usn_hft_sim.Base.{ℕ, ◌≡◌, ◌↔◌, arith, Bool, true, false, Option, none, some, List, [], ◌∷◌}
use usn_hft_sim.Base.Ints.{ℤ}
use usn_hft_sim.Io.Epoll
use usn_hft_sim.Io.Epoll.Wait.{wait_fits, Fits}
use usn_hft_sim.Io.Status.{
  continue_work, stop, success, is_ok, is_retryable_idle_status, should_continue_loop,
  classify_loop_control, of_epoll_status, of_epoll,
}

abbrev pub is_empty : List Epoll.Event → Bool
is_empty [] = true
is_empty (e ∷ events) = false

abbrev pub Directs : Option (Epoll.EpollWaitResult × List Epoll.Event) → Type 0
Directs outcome = elim outcome [
  | none ↦ Unit
  | some (result, events) ↦
      (classify_loop_control (of_epoll result) ≡ continue_work ↔ is_empty events ≡ false)
      × (success (of_epoll result) ≡ Epoll.success result)
      × (should_continue_loop (of_epoll result) ≡ false
          ↔ classify_loop_control (of_epoll result) ≡ stop)
]

fitting-Directs :
    (count : ℤ) (error : ℕ) (status : Epoll.EpollWaitStatus) (events : List Epoll.Event)
    → Fits (record { count = count; error = error; status = status }) events
    → Directs (some (record { count = count; error = error; status = status }, events))
unfolding classify_loop_control should_continue_loop is_ok is_retryable_idle_status of_epoll
    of_epoll_status success Epoll.success
fitting-Directs count error Epoll.EpollWaitStatus.ok [] fits = ground arith
fitting-Directs count error Epoll.EpollWaitStatus.ok (e ∷ events) fits = ground arith
fitting-Directs count error Epoll.EpollWaitStatus.timeout [] fits = ground arith
fitting-Directs count error Epoll.EpollWaitStatus.timeout (e ∷ events) fits = ground arith
fitting-Directs count error Epoll.EpollWaitStatus.cancelled [] fits = ground arith
fitting-Directs count error Epoll.EpollWaitStatus.cancelled (e ∷ events) fits = ground arith
fitting-Directs count error Epoll.EpollWaitStatus.sys_error [] fits = ground arith
fitting-Directs count error Epoll.EpollWaitStatus.sys_error (e ∷ events) fits = ground arith

outcome-Directs :
    (outcome : Option (Epoll.EpollWaitResult × List Epoll.Event))
    → elim outcome as (λ _. Type 0) [ none ↦ Unit | some (result, events) ↦ Fits result events ]
    → Directs outcome
outcome-Directs none fits = tt
outcome-Directs (some (result, events)) fits =
    fitting-Directs result.count result.error result.status events fits

-- Through the unified view a wait of the epoll wrapper tells its loop to work exactly if it leaves
-- events, its success is kept, and the two tests on the view agree about when the loop stops.
pub wait-Directs :
    (o : Epoll.EpollWaitOptions) (is_cancelled : Bool) (attempts : List Epoll.Attempt)
    → Directs (Epoll.wait_with_options o is_cancelled attempts).outcome
wait-Directs o is_cancelled attempts =
    outcome-Directs (Epoll.wait_with_options o is_cancelled attempts).outcome
      (wait_fits o is_cancelled attempts)
