-- ===== src/Io/Epoll/Service.antt =====
-- The set of descriptors of `EpollWrapper`, and its event loop. What `epoll_create1` and `epoll_ctl`
-- answer is an input.
use usn_hft_sim.Base.{
  ℕ, ◌-◌, ◌≡◌, ap, sym, ◌∙◌, arith, Bool, true, false, Option, none, some, List, [], ◌∷◌, map, ◌==◌,
  if◌then◌else◌,
}
use mathlib.Core.Option.{some-injective, none-ne-some}
use usn_hft_sim.Base.Ints.{ℤ, pos, is_negative, at_least_zero, eintr}
use usn_hft_sim.Io.Epoll.{
  EpollWaitOptions, EpollWaitResult, Event, Reply, Attempt, Run, next_wait, on_no_event, on_error,
  on_reply, wait_loop, wait_with_options, wait_result,
}

pub record EpollWrapper : Type 0 where
  pub epoll_fd : Option ℕ
  pub max_events : ℕ

-- The constructor, with what `epoll_create1` answers.
unfoldable pub make : Option ℕ → (max_events : ℕ) → EpollWrapper
make created max_events = record { epoll_fd = created; max_events = max_events }

-- The destructor closes the descriptor, if there is one.
unfoldable pub closes : EpollWrapper → List ℕ
closes w = elim w.epoll_fd [ none ↦ [] | some fd ↦ fd ∷ [] ]

-- A call of `epoll_ctl`.
pub data Control : Type 0 where
  add modify : (fd events : ℕ) → Control
  delete : (fd : ℕ) → Control

-- What the call answers for a descriptor of the set; `true` is 0.
abbrev pub EpollCtl : Type 0
EpollCtl = Option ℕ → Control → Bool

unfoldable pub add_fd : EpollCtl → EpollWrapper → (fd events : ℕ) → Bool
add_fd epoll_ctl w fd events = epoll_ctl w.epoll_fd (add fd events)

unfoldable pub modify_fd : EpollCtl → EpollWrapper → (fd events : ℕ) → Bool
modify_fd epoll_ctl w fd events = epoll_ctl w.epoll_fd (modify fd events)

unfoldable pub remove_fd : EpollCtl → EpollWrapper → (fd : ℕ) → Bool
remove_fd epoll_ctl w fd = epoll_ctl w.epoll_fd (delete fd)

-- An attempt of a wait that has no cancel flag.
pub record Try : Type 0 where
  pub reply : Reply

abbrev pub unflagged : List Try → List Attempt
unflagged tries =
    map (λ (t : Try). let a : Attempt = record { reply = t.reply; is_cancelled = false } in a) tries

abbrev pub plain_options : (timeout_ms : ℤ) → EpollWaitOptions
plain_options timeout_ms = record { timeout_ms = timeout_ms; poll_interval_ms = pos 5 }

-- `wait`: what it returns with the error number, and the events; `none` while it runs.
unfoldable pub wait : (timeout_ms : ℤ) → List Try → Option ((ℤ × ℕ) × List Event)
wait timeout_ms tries =
    elim ((wait_with_options (plain_options timeout_ms) false (unflagged tries)).outcome) [
      | none ↦ none
      | some (r, events) ↦ some (wait_result r, events)
    ]

unfoldable pub wait_nonblock : List Try → Option ((ℤ × ℕ) × List Event)
unfolding wait
wait_nonblock tries = wait (pos 0) tries

-- The calls of the callback, on a state of its own.
unfoldable pub deliver : {S : Type 0} → (callback : Event → S → S) → List Event → S → S
deliver callback [] s = s
deliver callback (e ∷ events) s = deliver callback events (callback e s)

-- `event_loop`, with the tries of each wait: whether it still runs, and the callback's state.
unfoldable pub event_loop :
    {S : Type 0} → (callback : Event → S → S) → (timeout_ms : ℤ) → List (List Try) → S → Bool × S
unfolding deliver
event_loop callback timeout_ms [] s = (true, s)
event_loop callback timeout_ms (tries ∷ rounds) s = elim (wait timeout_ms tries) [
  | none ↦ (true, s)
  | some ((n, errno), events) ↦
      let again = event_loop callback timeout_ms rounds s in
      let more = event_loop callback timeout_ms rounds (deliver callback events s) in
      if is_negative n then (if errno == eintr then again else (false, s)) else more
]

-- A result does not report an interruption.
abbrev ReportsNone : Option (EpollWaitResult × List Event) → Type 0
ReportsNone none = Unit
ReportsNone (some (result, events)) = (result.error == eintr) ≡ false

abbrev Reports : Run → Type 0
Reports r = ReportsNone r.outcome

wait_loop-Reports :
    (o : EpollWaitOptions) (remaining_ms : ℕ) (attempts : List Attempt)
    → Reports (wait_loop o remaining_ms attempts)
unfolding wait_loop on_reply on_no_event on_error
wait_loop-Reports o remaining_ms [] = tt
wait_loop-Reports o remaining_ms (a ∷ attempts) =
    ground (arith, wait_loop-Reports o (remaining_ms - next_wait o remaining_ms) attempts)

wait_result_reports :
    (r : EpollWaitResult) → (r.error == eintr) ≡ false → ((wait_result r).1 == eintr) ≡ false
unfolding wait_result
wait_result_reports r h = ground arith

abbrev taken : Option (EpollWaitResult × List Event) → Option ((ℤ × ℕ) × List Event)
taken none = none
taken (some (r, events)) = some (wait_result r, events)

taken_reports :
    (o : Option (EpollWaitResult × List Event)) (answer : (ℤ × ℕ) × List Event)
    → ReportsNone o
    → taken o ≡ some answer
    → (answer.0.1 == eintr) ≡ false
taken_reports none answer h e = absurd (none-ne-some answer e)
taken_reports (some (r, events)) answer h e =
    sym (ap (λ (x : (ℤ × ℕ) × List Event). x.0.1 == eintr) (some-injective _ answer e))
    ∙ wait_result_reports r h

-- A wait of the wrapper, with or without a limit, never fails with an interruption.
pub wait_is_not_interrupted :
    (timeout_ms : ℤ) (tries : List Try) (answer : (ℤ × ℕ) × List Event)
    → wait timeout_ms tries ≡ some answer
    → (answer.0.1 == eintr) ≡ false
unfolding wait wait_with_options
wait_is_not_interrupted timeout_ms tries answer h =
    taken_reports
      (wait_loop (plain_options timeout_ms) (at_least_zero timeout_ms) (unflagged tries)).outcome
      answer
      (wait_loop-Reports (plain_options timeout_ms) (at_least_zero timeout_ms) (unflagged tries)) h
