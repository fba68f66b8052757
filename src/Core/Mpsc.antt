-- ===== src/Core/Mpsc.antt =====
-- `MpscQueue` of include/usn/core/mpsc_queue.hpp. A call of `try_push` is a producer that takes one step
-- for each access of shared memory; `try_pop`, of the one consumer, is one step. The accesses are
-- sequentially consistent.
pub mod Steps
mod Tests
use usn_hft_sim.Base.{
  ℕ, ◌+◌, Bool, Option, none, some, List, [], ◌∷◌, get_elem?, get_or, set, replicate, leb, ◌==◌,
  ◌≡◌, if◌then◌else◌, u64, sub_u64, bit_and,
}
use usn_hft_sim.Core.Capacity.{round_up_power_of_two}

pub record MpscQueue {ℓ} (A : Type ℓ) : Type ℓ where
  pub capacity : ℕ
  pub mask : ℕ
  pub head : ℕ
  pub tail : ℕ
  pub buffer : List (Option A)

unfoldable pub make {ℓ} : {A : Type ℓ} → ℕ → MpscQueue A
make requested =
    let capacity = round_up_power_of_two requested in
    record {
      capacity = capacity;
      mask = sub_u64 capacity 1;
      head = 0;
      tail = 0;
      buffer = replicate capacity none;
    }

-- Where a call of `try_push` stands, with its value and what it has read.
pub data Producer {ℓ} (A : Type ℓ) : Type ℓ where
  loads_tail : A → Producer A
  loads_head : A → (tail : ℕ) → Producer A
  exchanges : A → (tail head : ℕ) → Producer A
  writes : A → (tail : ℕ) → Producer A
  pushed refused : Producer A

unfoldable pub push_step {ℓ} : {A : Type ℓ} → MpscQueue A → Producer A → MpscQueue A × Producer A
push_step q (loads_tail v) = (q, loads_head v q.tail)
push_step q (loads_head v tail) =
    (q, if leb q.capacity (sub_u64 tail q.head) then refused else exchanges v tail q.head)
push_step q (exchanges v tail head) =
    if q.tail == tail
    then (record q { tail = u64 (tail + 1) }, writes v tail)
    else (q, loads_head v q.tail)
push_step q (writes v tail) =
    (record q { buffer = set q.buffer (bit_and tail q.mask) (some v) }, pushed)
push_step q pushed = (q, pushed)
push_step q refused = (q, refused)

-- The value popped, if any. A slot that is reserved but not written yet gives none.
unfoldable pub try_pop {ℓ} : {A : Type ℓ} → MpscQueue A → Option A × MpscQueue A
try_pop q =
    let i = bit_and q.head q.mask in
    if leb q.tail q.head then (none, q) else elim (get_or q.buffer i none) [
      | none ↦ (none, q)
      | some v ↦ (some v, record q { buffer = set q.buffer i none; head = u64 (q.head + 1) })
    ]

unfoldable pub empty {ℓ} : {A : Type ℓ} → MpscQueue A → Bool
empty q = leb q.tail q.head

unfoldable pub size {ℓ} : {A : Type ℓ} → MpscQueue A → ℕ
size q = if leb q.head q.tail then sub_u64 q.tail q.head else 0

-- The queue and the calls of `try_push` made so far.
pub record System {ℓ} (A : Type ℓ) : Type ℓ where
  pub queue : MpscQueue A
  pub producers : List (Producer A)

-- One step of the system: a new call, a step of a call, a weak exchange that fails without cause, or a
-- pop.
pub data Step {ℓ} {A : Type ℓ} : System A → System A → Type ℓ where
  calls : {s : System A} (v : A) → Step s (record s { producers = loads_tail v ∷ s.producers })
  pushes :
      {s : System A} {p : Producer A} (i : ℕ)
      → get_elem? s.producers i ≡ some p
      → Step s (record {
        queue = (push_step s.queue p).0;
        producers = set s.producers i (push_step s.queue p).1;
      })
  fails :
      {s : System A} {v : A} {tail head : ℕ} (i : ℕ)
      → get_elem? s.producers i ≡ some (exchanges v tail head)
      → Step s (record s { producers = set s.producers i (loads_head v s.queue.tail) })
  pops : {s : System A} → Step s (record s { queue = (try_pop s.queue).1 })
