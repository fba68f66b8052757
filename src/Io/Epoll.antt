-- ===== src/Io/Epoll.antt =====
-- `EpollWrapper::wait_with_options` of include/usn/io/epoll_wrapper.hpp; the system's answers come in as
-- a list of attempts. The rest of the wrapper is in Service.
pub mod Wait
pub mod Service
mod Tests
use usn_hft_sim.Base.{
  ℕ, ◌-◌, min, Bool, true, false, ◌&&◌, ◌||◌, not, Option, none, some, List, [], ◌∷◌, length, ◌==◌,
  if◌then◌else◌,
}
use usn_hft_sim.Base.Ints.{ℤ, pos, negsuc, is_positive, is_zero, at_least_zero, eintr}

pub data EpollWaitStatus : Type 0 where
  ok timeout cancelled sys_error : EpollWaitStatus

-- The cancel flag is left out: each attempt says what it holds when it is read.
pub record EpollWaitOptions : Type 0 where
  pub timeout_ms : ℤ
  pub poll_interval_ms : ℤ

pub record EpollWaitResult : Type 0 where
  pub count : ℤ
  pub error : ℕ
  pub status : EpollWaitStatus

unfoldable pub success : EpollWaitResult → Bool
success r = elim r.status [ EpollWaitStatus.sys_error ↦ false | _ ↦ true ]

-- An `epoll_event`: the descriptor and the event bits.
pub record Event : Type 0 where
  pub fd : ℕ
  pub events : ℕ

-- `epoll_wait`: the events, or the error number.
pub data Reply : Type 0 where
  ready : List Event → Reply
  failed : (errno : ℕ) → Reply

pub record Attempt : Type 0 where
  pub reply : Reply
  pub is_cancelled : Bool

-- The result with the events left to the caller, `none` if the loop is still running, and the waits
-- that it has asked for.
pub record Run : Type 0 where
  pub outcome : Option (EpollWaitResult × List Event)
  pub waits : List ℕ

abbrev pub ended : ℤ → ℕ → EpollWaitStatus → List Event → Run
ended count error status events = record {
  outcome = some (record { count = count; error = error; status = status }, events);
  waits = [];
}

abbrev pub waited : ℕ → Run → Run
waited wait_ms rest = record rest { waits = wait_ms ∷ rest.waits }

unfoldable pub interval : EpollWaitOptions → ℕ
interval o = if is_positive o.poll_interval_ms then at_least_zero o.poll_interval_ms else 1

-- The wait of a round. A timeout of 0 waits for 0.
unfoldable pub next_wait : EpollWaitOptions → ℕ → ℕ
unfolding interval
next_wait o remaining_ms =
    if is_positive o.timeout_ms
    then min (interval o) remaining_ms
    else if is_zero o.timeout_ms
    then 0
    else interval o

-- No event: `remaining_ms` is what is left after this wait.
unfoldable pub on_no_event : EpollWaitOptions → (remaining_ms : ℕ) → Bool → Run → Run
on_no_event o remaining_ms is_cancelled rest =
    if is_cancelled
    then ended (pos 0) 0 EpollWaitStatus.cancelled []
    else (if is_zero o.timeout_ms || is_positive o.timeout_ms && remaining_ms == 0
        then ended (pos 0) 0 EpollWaitStatus.timeout []
        else rest)

unfoldable pub on_error : (errno : ℕ) → Bool → Run → Run
on_error errno is_cancelled rest =
    if errno == eintr
    then (if is_cancelled then ended (pos 0) 0 EpollWaitStatus.cancelled [] else rest)
    else ended (negsuc 0) errno EpollWaitStatus.sys_error []

unfoldable pub on_reply : EpollWaitOptions → (remaining_ms : ℕ) → Reply → Bool → Run → Run
unfolding on_no_event on_error
on_reply o remaining_ms (ready []) is_cancelled rest = on_no_event o remaining_ms is_cancelled rest
on_reply o remaining_ms (ready (e ∷ events)) is_cancelled rest =
    ended (pos (length (e ∷ events))) 0 EpollWaitStatus.ok (e ∷ events)
on_reply o remaining_ms (failed errno) is_cancelled rest = on_error errno is_cancelled rest

-- The `while (true)` over the attempts.
unfoldable pub wait_loop : EpollWaitOptions → ℕ → List Attempt → Run
unfolding next_wait on_reply
wait_loop o remaining_ms [] = record { outcome = none; waits = [] }
wait_loop o remaining_ms (a ∷ attempts) =
    let wait_ms = next_wait o remaining_ms in
    let left = remaining_ms - wait_ms in
    let rest = wait_loop o left attempts in
    if is_positive o.timeout_ms && remaining_ms == 0
    then ended (pos 0) 0 EpollWaitStatus.timeout []
    else waited wait_ms (on_reply o left a.reply a.is_cancelled rest)

unfoldable pub wait_with_options : EpollWaitOptions → Bool → List Attempt → Run
unfolding wait_loop
wait_with_options o is_cancelled attempts =
    if is_cancelled
    then ended (pos 0) 0 EpollWaitStatus.cancelled []
    else wait_loop o (at_least_zero o.timeout_ms) attempts

-- `wait`: -1 with the error number, or the count.
unfoldable pub wait_result : EpollWaitResult → ℤ × ℕ
wait_result r = elim r.status [ EpollWaitStatus.sys_error ↦ (negsuc 0, r.error) | _ ↦ (r.count, 0) ]
