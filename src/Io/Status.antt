-- ===== src/Io/Status.antt =====
-- include/usn/io/io_status_types.hpp and the conversions of include/usn/io/io_status.hpp.
pub mod Unified
use usn_hft_sim.Base.{ℕ, zero, suc, Bool, true, false, not, ◌||◌, if◌then◌else◌}
use usn_hft_sim.Base.Ints.{ℤ, pos, negsuc, at_least_zero}
use usn_hft_sim.Io.Batch
use usn_hft_sim.Io.BusyPoll
use usn_hft_sim.Io.Epoll
use usn_hft_sim.Io.Uring

pub data UnifiedIoStatus : Type 0 where
  ok timeout cancelled would_block not_initialized stopped sys_error : UnifiedIoStatus

pub record UnifiedIoResult : Type 0 where
  pub count : ℕ
  pub error : ℕ
  pub status : UnifiedIoStatus

unfoldable pub is_terminal_error_status : UnifiedIoStatus → Bool
is_terminal_error_status UnifiedIoStatus.sys_error = true
is_terminal_error_status UnifiedIoStatus.not_initialized = true
is_terminal_error_status s = false

unfoldable pub success : UnifiedIoResult → Bool
success r = elim r.status [
  | UnifiedIoStatus.sys_error ↦ false
  | UnifiedIoStatus.not_initialized ↦ false
  | _ ↦ true
]

unfoldable pub is_retryable_idle_status : UnifiedIoStatus → Bool
is_retryable_idle_status UnifiedIoStatus.timeout = true
is_retryable_idle_status UnifiedIoStatus.would_block = true
is_retryable_idle_status s = false

pub data LoopControl : Type 0 where
  continue_work continue_idle stop : LoopControl

unfoldable pub is_ok : UnifiedIoStatus → Bool
is_ok UnifiedIoStatus.ok = true
is_ok s = false

unfoldable pub should_continue_loop : UnifiedIoResult → Bool
unfolding is_ok is_retryable_idle_status
should_continue_loop r = is_ok r.status || is_retryable_idle_status r.status

unfoldable pub classify_loop_control : UnifiedIoResult → LoopControl
unfolding is_ok is_retryable_idle_status
classify_loop_control r =
    if is_ok r.status
    then LoopControl.continue_work
    else (if is_retryable_idle_status r.status then LoopControl.continue_idle else LoopControl.stop)

unfoldable pub of_batch_status : Batch.BatchIoStatus → UnifiedIoStatus
of_batch_status Batch.BatchIoStatus.ok = UnifiedIoStatus.ok
of_batch_status Batch.BatchIoStatus.timeout = UnifiedIoStatus.timeout
of_batch_status Batch.BatchIoStatus.cancelled = UnifiedIoStatus.cancelled
of_batch_status Batch.BatchIoStatus.would_block = UnifiedIoStatus.would_block
of_batch_status Batch.BatchIoStatus.sys_error = UnifiedIoStatus.sys_error

unfoldable pub of_epoll_status : Epoll.EpollWaitStatus → UnifiedIoStatus
of_epoll_status Epoll.EpollWaitStatus.ok = UnifiedIoStatus.ok
of_epoll_status Epoll.EpollWaitStatus.timeout = UnifiedIoStatus.timeout
of_epoll_status Epoll.EpollWaitStatus.cancelled = UnifiedIoStatus.cancelled
of_epoll_status Epoll.EpollWaitStatus.sys_error = UnifiedIoStatus.sys_error

unfoldable pub of_uring_status : Uring.IoUringWaitStatus → UnifiedIoStatus
of_uring_status Uring.IoUringWaitStatus.ok = UnifiedIoStatus.ok
of_uring_status Uring.IoUringWaitStatus.timeout = UnifiedIoStatus.timeout
of_uring_status Uring.IoUringWaitStatus.cancelled = UnifiedIoStatus.cancelled
of_uring_status Uring.IoUringWaitStatus.not_initialized = UnifiedIoStatus.not_initialized
of_uring_status Uring.IoUringWaitStatus.sys_error = UnifiedIoStatus.sys_error

unfoldable pub of_poll_status : BusyPoll.BusyPollStatus → UnifiedIoStatus
of_poll_status BusyPoll.BusyPollStatus.completed = UnifiedIoStatus.ok
of_poll_status BusyPoll.BusyPollStatus.timeout = UnifiedIoStatus.timeout
of_poll_status BusyPoll.BusyPollStatus.cancelled = UnifiedIoStatus.cancelled
of_poll_status BusyPoll.BusyPollStatus.stopped = UnifiedIoStatus.stopped

unfoldable pub of_batch : Batch.BatchIoResult → UnifiedIoResult
unfolding of_batch_status
of_batch r = record { count = r.count; error = r.error; status = of_batch_status r.status }

unfoldable pub of_epoll : Epoll.EpollWaitResult → UnifiedIoResult
unfolding of_epoll_status
of_epoll r = record {
  count = at_least_zero r.count;
  error = r.error;
  status = of_epoll_status r.status;
}

unfoldable pub of_uring : Uring.IoUringWaitResult → UnifiedIoResult
unfolding of_uring_status
of_uring r = record { count = r.count; error = r.error; status = of_uring_status r.status }

unfoldable pub of_poll : BusyPoll.BusyPollResult → UnifiedIoResult
unfolding of_poll_status
of_poll r = record { count = r.data_hits; error = 0; status = of_poll_status r.status }
