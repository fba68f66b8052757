-- ===== src/Io/Batch.antt =====
-- `BatchRecv` and `BatchSend` of include/usn/io/batch_io.hpp. What the operating system answers, and
-- what the cancel flag holds when it is read, comes in as a list of attempts.
pub mod Policy
pub mod Receive
mod Tests
use mathlib.Core.Option
use usn_hft_sim.Base.{
  ℕ, zero, suc, ◌+◌, ◌-◌, min, Bool, true, false, not, ◌&&◌, ◌||◌, Option, none, some, List, [],
  ◌∷◌, length, set, ltb, ◌==◌, if◌then◌else◌,
}
use usn_hft_sim.Base.Ints.{ℤ, is_positive, is_zero, at_least_zero, eagain, eintr}
use usn_hft_sim.Core.Packet.{Packet, of_buffer}
use usn_hft_sim.Core.Ring.{PacketRing, try_push}

pub data BatchIoStatus : Type 0 where
  ok timeout cancelled would_block sys_error : BatchIoStatus

pub record BatchIoResult : Type 0 where
  pub count : ℕ
  pub error : ℕ
  pub status : BatchIoStatus

unfoldable pub success : BatchIoResult → Bool
success r = elim r.status [ BatchIoStatus.sys_error ↦ false | _ ↦ r.error == 0 ]

-- The cancel flag is not a number: each attempt says what it holds when it is read, `false` if there
-- is none.
pub record BatchIoOptions : Type 0 where
  pub timeout_ms : ℤ
  pub poll_interval_ms : ℤ

-- `recvmmsg` or `sendmmsg`: the lengths of the messages, or the error number.
pub data Reply : Type 0 where
  transferred : List ℕ → Reply
  failed : (errno : ℕ) → Reply

-- One round of the loop: the call, the cancel flag after it, and the error number of `poll` if that
-- fails.
pub record Attempt : Type 0 where
  pub reply : Reply
  pub is_cancelled : Bool
  pub poll_errno : Option ℕ

-- What the loop returns and the waits that it has asked `poll` for; `none` if it is still running.
pub record Run : Type 0 where
  pub outcome : Option Reply
  pub waits : List ℕ

abbrev pub ended : Reply → Run
ended r = record { outcome = some r; waits = [] }

-- A return of 0.
abbrev pub nothing : Reply
nothing = transferred []

unfoldable pub interval : BatchIoOptions → ℕ
interval o = if is_positive o.poll_interval_ms then at_least_zero o.poll_interval_ms else 1

-- `poll`, and the rest of the loop if it does not fail.
unfoldable pub after_poll : Option ℕ → (wait_ms : ℕ) → Run → Run
after_poll none wait_ms rest = record rest { waits = wait_ms ∷ rest.waits }
after_poll (some errno) wait_ms rest =
    if errno == eintr
    then record rest { waits = wait_ms ∷ rest.waits }
    else record { outcome = some (failed errno); waits = wait_ms ∷ [] }

-- A round whose call has failed.
unfoldable pub on_failure :
    BatchIoOptions → (remaining_ms errno : ℕ) → Attempt → (wait_ms : ℕ) → Run → Run
unfolding after_poll
on_failure o remaining_ms errno a wait_ms rest =
    if not (errno == eagain)
    then ended (failed errno)
    else (if is_zero o.timeout_ms || a.is_cancelled
        then ended nothing
        else (if is_positive o.timeout_ms && remaining_ms == 0
            then ended nothing
            else after_poll a.poll_errno wait_ms rest))

unfoldable pub next_wait : BatchIoOptions → ℕ → ℕ
unfolding interval
next_wait o remaining_ms =
    if is_positive o.timeout_ms then min (interval o) remaining_ms else interval o

-- The `while (true)` over the attempts.
unfoldable pub attempt_loop : BatchIoOptions → ℕ → List Attempt → Run
unfolding on_failure next_wait
attempt_loop o remaining_ms [] = record { outcome = none; waits = [] }
attempt_loop o remaining_ms (a ∷ attempts) =
    let wait_ms = next_wait o remaining_ms in
    let rest = attempt_loop o (remaining_ms - wait_ms) attempts in
    elim a.reply [
      | transferred lens ↦ ended (transferred lens)
      | failed errno ↦ on_failure o remaining_ms errno a wait_ms rest
    ]

-- `recvmmsg_with_policy`; the first flag is what the cancel flag holds at the start.
unfoldable pub recvmmsg_with_policy : BatchIoOptions → Bool → List Attempt → Run
unfolding attempt_loop
recvmmsg_with_policy o is_cancelled attempts =
    if is_cancelled then ended nothing else attempt_loop o (at_least_zero o.timeout_ms) attempts

-- `sendmmsg_with_policy`, the same loop around the other call.
unfoldable pub sendmmsg_with_policy : BatchIoOptions → Bool → List Attempt → Run
unfolding attempt_loop
sendmmsg_with_policy o is_cancelled attempts =
    if is_cancelled then ended nothing else attempt_loop o (at_least_zero o.timeout_ms) attempts

-- The early returns after the loop; `none` where messages have been transferred.
unfoldable pub classify : BatchIoOptions → (is_cancelled : Bool) → Reply → Option BatchIoResult
classify o is_cancelled (failed errno) =
    if errno == eagain
    then some (record { count = 0; error = 0; status = BatchIoStatus.would_block })
    else some (record { count = 0; error = errno; status = BatchIoStatus.sys_error })
classify o is_cancelled (transferred []) =
    if is_cancelled
    then some (record { count = 0; error = 0; status = BatchIoStatus.cancelled })
    else (if is_positive o.timeout_ms
        then some (record { count = 0; error = 0; status = BatchIoStatus.timeout })
        else some (record { count = 0; error = 0; status = BatchIoStatus.would_block }))
classify o is_cancelled (transferred (len ∷ lens)) = none

abbrev pub all_well : ℕ → BatchIoResult
all_well n = record { count = n; error = 0; status = BatchIoStatus.ok }

-- The loop that pushes what was received: the `i`-th buffer is at `address i`.
unfoldable pub push_received : (address : ℕ → ℕ) → (i : ℕ) → List ℕ → PacketRing → ℕ × PacketRing
push_received address i [] ring = (0, ring)
push_received address i (len ∷ lens) ring =
    let (pushed, ring') = try_push ring (of_buffer (address i) len 0) in
    let (added, full) = push_received address (i + 1) lens ring' in
    if pushed then (added + 1, full) else (0, ring')

-- What the world answers to one call: the cancel flag before and after the loop, and the attempts.
pub record World : Type 0 where
  pub cancelled_before : Bool
  pub attempts : List Attempt
  pub cancelled_after : Bool

-- What follows the loop of `recv_batch` into a ring.
unfoldable pub store_in_ring : (address : ℕ → ℕ) → Reply → PacketRing → BatchIoResult × PacketRing
unfolding push_received
store_in_ring address (failed errno) ring = (all_well 0, ring)
store_in_ring address (transferred lens) ring =
    let (added, ring') = push_received address 0 lens ring in (all_well added, ring')

unfoldable pub finish_ring :
    (address : ℕ → ℕ) → BatchIoOptions → Bool → PacketRing → Reply → BatchIoResult × PacketRing
unfolding classify store_in_ring
finish_ring address o is_cancelled ring reply = elim (classify o is_cancelled reply) [
  | some result ↦ (result, ring)
  | none ↦ store_in_ring address reply ring
]

-- `recv_batch` into a ring; `none` while the loop is running.
unfoldable pub recv_batch :
    (address : ℕ → ℕ)
    → BatchIoOptions
    → (max_packets : ℕ) → World
    → PacketRing
    → Option (BatchIoResult × PacketRing)
unfolding recvmmsg_with_policy finish_ring
recv_batch address o max_packets w ring =
    if max_packets == 0
    then some (all_well 0, ring)
    else Option.map (finish_ring address o w.cancelled_after ring)
        (recvmmsg_with_policy o w.cancelled_before w.attempts).outcome

-- The loop that fills the caller's array.
unfoldable pub fill : (address : ℕ → ℕ) → (i : ℕ) → List ℕ → List Packet → List Packet
fill address i [] packets = packets
fill address i (len ∷ lens) packets =
    fill address (i + 1) lens (set packets i (of_buffer (address i) len 0))

unfoldable pub finish_array :
    (address : ℕ → ℕ) → BatchIoOptions → Bool → List Packet → Reply → BatchIoResult × List Packet
unfolding classify fill
finish_array address o is_cancelled packets reply = elim (classify o is_cancelled reply) [
  | some result ↦ (result, packets)
  | none ↦ elim reply [
    | failed errno ↦ (all_well 0, packets)
    | transferred lens ↦ (all_well (length lens), fill address 0 lens packets)
  ]
]

-- `recv_batch` into an array.
unfoldable pub recv_batch_array :
    (address : ℕ → ℕ) → BatchIoOptions → World → List Packet → Option (BatchIoResult × List Packet)
unfolding recvmmsg_with_policy finish_array
recv_batch_array address o w [] = some (all_well 0, [])
recv_batch_array address o w (p ∷ packets) =
    Option.map (finish_array address o w.cancelled_after (p ∷ packets))
      (recvmmsg_with_policy o w.cancelled_before w.attempts).outcome

unfoldable pub finish_send : BatchIoOptions → Bool → Reply → BatchIoResult
unfolding classify
finish_send o is_cancelled reply = elim (classify o is_cancelled reply) [
  | some result ↦ result
  | none ↦ elim reply [ failed errno ↦ all_well 0 | transferred lens ↦ all_well (length lens) ]
]

unfoldable pub send_batch : BatchIoOptions → World → List Packet → Option BatchIoResult
unfolding sendmmsg_with_policy finish_send
send_batch o w [] = some (all_well 0)
send_batch o w (p ∷ packets) =
    Option.map (finish_send o w.cancelled_after)
      (sendmmsg_with_policy o w.cancelled_before w.attempts).outcome
