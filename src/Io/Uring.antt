-- ===== src/Io/Uring.antt =====
-- `IoUringWrapper` of include/usn/io/io_uring_wrapper.hpp: the ring, the requests, and the loops that
-- collect completions. What liburing answers is an input, for the loops as a list of attempts; a
-- completion is a number.
pub mod Seen
mod Tests
use usn_hft_sim.Base.{
  ℕ, zero, suc, ◌+◌, ◌-◌, min, Bool, true, false, not, ◌&&◌, ◌||◌, Option, none, some, List, [],
  ◌∷◌, ◌++◌, length, ltb, leb, ◌==◌, if◌then◌else◌,
}
use usn_hft_sim.Base.Ints.{
  ℤ, pos, negsuc, is_zero, is_positive, is_negative, at_least_zero, eagain, eintr,
}

pub data IoUringWaitStatus : Type 0 where
  ok timeout cancelled not_initialized sys_error : IoUringWaitStatus

pub record IoUringWaitOptions : Type 0 where
  pub timeout_ms : ℤ
  pub poll_interval_ms : ℤ

-- `count` is never negative.
pub record IoUringWaitResult : Type 0 where
  pub count : ℕ
  pub error : ℕ
  pub status : IoUringWaitStatus

unfoldable pub success : IoUringWaitResult → Bool
success r = elim r.status [
  | IoUringWaitStatus.sys_error ↦ false
  | IoUringWaitStatus.not_initialized ↦ false
  | _ ↦ true
]

-- `ETIME`
abbrev pub etime : ℕ
etime = 62

-- What the call of a round returns: a completion, or an error number.
pub data Reply : Type 0 where
  completion : ℕ → Reply
  failed : (errno : ℕ) → Reply

pub record Attempt : Type 0 where
  pub reply : Reply
  pub is_cancelled : Bool

-- The result, the completions left to the caller, and how many have been marked as seen.
pub record Outcome : Type 0 where
  pub result : IoUringWaitResult
  pub cqes : List ℕ
  pub seen : ℕ

-- A return out of the loop, which marks nothing.
abbrev pub leaves : List ℕ → ℕ → IoUringWaitStatus → Option Outcome
leaves cqes error status = some (record {
  result = record { count = length cqes; error = error; status = status };
  cqes = cqes;
  seen = 0;
})

-- What follows the loop: every completion is marked.
unfoldable pub after_loop : IoUringWaitOptions → Bool → List ℕ → Option Outcome
after_loop o is_cancelled cqes =
    let status =
      if is_cancelled && length cqes == 0
      then IoUringWaitStatus.cancelled
      else (if length cqes == 0 && not (is_negative o.timeout_ms)
          then IoUringWaitStatus.timeout
          else IoUringWaitStatus.ok) in
    some (record {
      result = record { count = length cqes; error = 0; status = status };
      cqes = cqes;
      seen = length cqes;
    })

unfoldable pub interval : IoUringWaitOptions → ℕ
interval o = if is_positive o.poll_interval_ms then at_least_zero o.poll_interval_ms else 1

-- What is left of the timeout after the call of a round: only a bounded wait takes from it.
unfoldable pub left_after : IoUringWaitOptions → (min_completions remaining_ms count : ℕ) → ℕ
unfolding interval
left_after o min_completions remaining_ms count =
    if ltb count min_completions && is_positive o.timeout_ms
    then remaining_ms - min (interval o) remaining_ms
    else remaining_ms

-- A call that has failed; `again` is the rest of the loop.
unfoldable pub on_failure :
    IoUringWaitOptions → (errno : ℕ) → Bool → Bool → List ℕ → Option Outcome → Option Outcome
unfolding after_loop
on_failure o errno is_cancelled is_cancelled_at_end cqes again =
    if errno == eintr
    then (if is_cancelled then leaves cqes 0 IoUringWaitStatus.cancelled else again)
    else (if errno == etime || errno == eagain
        then (if is_cancelled
            then leaves cqes 0 IoUringWaitStatus.cancelled
            else (if length cqes == 0
                then leaves [] 0 (
                    if is_negative o.timeout_ms
                    then IoUringWaitStatus.ok
                    else IoUringWaitStatus.timeout)
                else after_loop o is_cancelled_at_end cqes))
        else leaves cqes errno IoUringWaitStatus.sys_error)

-- The `while` over the attempts, with the completions collected so far; the last flag is what the
-- cancel flag holds after the loop. `none` if it is still running.
unfoldable pub wait_loop :
    IoUringWaitOptions
    → (min_completions max_completions remaining_ms : ℕ) → Bool
    → List ℕ
    → List Attempt
    → Option Outcome
unfolding after_loop left_after on_failure
wait_loop o min_completions max_completions remaining_ms at_end cqes [] =
    if leb max_completions (length cqes) then after_loop o at_end cqes else none
wait_loop o min_completions max_completions remaining_ms at_end cqes (a ∷ attempts) =
    let left = left_after o min_completions remaining_ms (length cqes) in
    let more : List ℕ = elim a.reply [ completion c ↦ cqes ++ c ∷ [] | failed errno ↦ cqes ] in
    let again = wait_loop o min_completions max_completions left at_end more attempts in
    if leb max_completions (length cqes)
    then after_loop o at_end cqes
    else (if ltb (length cqes) min_completions && is_positive o.timeout_ms && remaining_ms == 0
        then leaves cqes 0 IoUringWaitStatus.timeout
        else elim a.reply [
          | completion c ↦ if a.is_cancelled then after_loop o at_end more else again
          | failed errno ↦ on_failure o errno a.is_cancelled at_end cqes again
        ])

unfoldable pub wait_completions_with_options :
    (initialized : Bool)
    → IoUringWaitOptions
    → (min_completions max_completions : ℕ) → (at_start at_end : Bool) → List Attempt
    → Option Outcome
unfolding wait_loop
wait_completions_with_options initialized o min_completions max_completions at_start at_end
      attempts =
    if not initialized
    then leaves [] 0 IoUringWaitStatus.not_initialized
    else (if at_start
        then leaves [] 0 IoUringWaitStatus.cancelled
        else wait_loop o min_completions max_completions (at_least_zero o.timeout_ms) at_end []
            attempts)

-- `peek_completions` on a completion queue of which `io_uring_peek_cqe` shows the head, and which
-- `io_uring_cqe_seen` moves on.
unfoldable pub peek_loop : {Q : Type 0} → (peek : Q → Option ℕ) → (fuel : ℕ) → Q → List ℕ
peek_loop peek zero q = []
peek_loop peek (suc fuel) q = elim (peek q) [ none ↦ [] | some c ↦ c ∷ peek_loop peek fuel q ]

unfoldable pub mark_seen : {Q : Type 0} → (seen : Q → Q) → List ℕ → Q → Q
mark_seen seen [] q = q
mark_seen seen (c ∷ cqes) q = mark_seen seen cqes (seen q)

unfoldable pub peek_completions :
    {Q : Type 0}
    → (peek : Q → Option ℕ) → (seen : Q → Q) → (initialized : Bool) → (max_completions : ℕ) → Q
    → List ℕ × Q
unfolding peek_loop mark_seen
peek_completions peek seen initialized max_completions q =
    if not initialized
    then ([], q)
    else let cqes = peek_loop peek max_completions q in (cqes, mark_seen seen cqes q)

-- The constructor, with what `io_uring_queue_init` answers, and whether the destructor leaves the queue.
pub record IoUringWrapper : Type 0 where
  pub initialized : Bool

unfoldable pub make : (init : ℤ) → IoUringWrapper
make init = record { initialized = is_zero init }

unfoldable pub exits_queue : IoUringWrapper → Bool
exits_queue w = w.initialized

-- What `submit_recv` and `submit_send` hand to the kernel.
pub data Request : Type 0 where
  receive send : (fd buf len flags : ℕ) → Request

-- Whether there is a free entry, and what `io_uring_submit` answers to the request.
abbrev pub Submit : Type 0
Submit = Request → ℤ

unfoldable pub submit_request : IoUringWrapper → (has_entry : Bool) → Submit → Request → Bool
submit_request w has_entry io_uring_submit request =
    if not w.initialized
    then false
    else if not has_entry
    then false
    else not (is_negative (io_uring_submit request))

unfoldable pub submit_recv :
    IoUringWrapper → (has_entry : Bool) → Submit → (fd buf len flags : ℕ) → Bool
submit_recv w has_entry io_uring_submit fd buf len flags =
    submit_request w has_entry io_uring_submit (receive fd buf len flags)

unfoldable pub submit_send :
    IoUringWrapper → (has_entry : Bool) → Submit → (fd buf len flags : ℕ) → Bool
submit_send w has_entry io_uring_submit fd buf len flags =
    submit_request w has_entry io_uring_submit (send fd buf len flags)

-- `wait_completions`: -1 with the error number, or the count.
unfoldable pub completions_result : IoUringWaitResult → ℤ × ℕ
completions_result r = elim r.status [
  | IoUringWaitStatus.sys_error ↦ (negsuc 0, r.error)
  | IoUringWaitStatus.not_initialized ↦ (pos 0, 0)
  | _ ↦ (pos r.count, 0)
]
