-- ===== src/Core/Mpsc/Steps.antt =====
-- What every interleaving of the producers' steps and of pops keeps.
use usn_hft_sim.Base.{
  ℕ, zero, suc, ◌+◌, ◌≤◌, ◌<◌, ◌^◌, ◌≡◌, ap, arith, Option, none, some, List, [], ◌∷◌, get_elem?,
  set, leb, ◌==◌, u64, sub_u64, Bool-cases, inl, inr, ◌⊎◌,
}
use usn_hft_sim.Core.Capacity.{round_up_power_of_two-IsCapacity}
use usn_hft_sim.Core.Mpsc.{
  MpscQueue, make, Producer, loads_tail, loads_head, exchanges, writes, pushed, refused, push_step,
  try_pop, System, Step, calls, pushes, fails, pops,
}

-- What a producer has read: a tail, and room after a head that has not been larger since.
abbrev pub HasRoom {ℓ} : {A : Type ℓ} → (capacity head : ℕ) → Producer A → Type 0
HasRoom capacity head (loads_head v tail) = tail < 2 ^ 64
HasRoom capacity head (exchanges v tail seen) =
    (tail < 2 ^ 64) × (seen ≤ head) × (tail < seen + capacity)
HasRoom capacity head p = Unit

abbrev pub AllHaveRoom {ℓ} : {A : Type ℓ} → (capacity head : ℕ) → List (Producer A) → Type 0
AllHaveRoom capacity head [] = Unit
AllHaveRoom capacity head (p ∷ ps) = HasRoom capacity head p × AllHaveRoom capacity head ps

-- No more than the capacity is reserved, and at most `n` places have ever been.
pub record IsBounded {ℓ} {A : Type ℓ} (n : ℕ) (s : System A) : Type ℓ where
  pub small : s.queue.capacity ≤ 2 ^ 63
  pub ordered : s.queue.head ≤ s.queue.tail
  pub bounded : s.queue.tail ≤ s.queue.head + s.queue.capacity
  pub counted : s.queue.tail ≤ n
  pub room : AllHaveRoom s.queue.capacity s.queue.head s.producers

-- Steps one after the other, counted.
pub data Steps {ℓ} {A : Type ℓ} : ℕ → System A → System A → Type ℓ where
  rests : (s : System A) → Steps 0 s s
  steps : {n : ℕ} {s t u : System A} → Steps n s t → Step t u → Steps (suc n) s u

room-get {ℓ} :
    {A : Type ℓ} (c h : ℕ) (ps : List (Producer A)) (i : ℕ) (p : Producer A)
    → get_elem? ps i ≡ some p
    → AllHaveRoom c h ps
    → HasRoom c h p
room-get {A} c h [] i p e r = absurd (ground arith)
room-get {A} c h (x ∷ ps) zero p e r =
    let same : x ≡ p = ap (λ (o : Option (Producer A)). elim o [ none ↦ x | some y ↦ y ]) e in
    rw (← same) (r.0)
room-get {A} c h (x ∷ ps) (suc i) p e r = room-get c h ps i p e r.1

room-set {ℓ} :
    {A : Type ℓ} (c h : ℕ) (ps : List (Producer A)) (i : ℕ) (p : Producer A)
    → HasRoom c h p
    → AllHaveRoom c h ps
    → AllHaveRoom c h (set ps i p)
room-set c h [] i p q r = r
room-set c h (x ∷ ps) zero p q r = (q, r.1)
room-set c h (x ∷ ps) (suc i) p q r = (r.0, room-set c h ps i p q r.1)

room-later {ℓ} :
    {A : Type ℓ} (c h h' : ℕ) (ps : List (Producer A))
    → h ≤ h'
    → AllHaveRoom c h ps
    → AllHaveRoom c h' ps
room-later c h h' [] l r = r
room-later c h h' (exchanges v t s ∷ ps) l r =
    ((r.0.0, omega arith, r.0.2), room-later c h h' ps l r.1)
room-later c h h' (loads_head v t ∷ ps) l r = (r.0, room-later c h h' ps l r.1)
room-later c h h' (p ∷ ps) l r = (tt, room-later c h h' ps l r.1)

-- A step that only changes one producer.
kept {ℓ} :
    {A : Type ℓ} {n : ℕ} (s : System A) (i : ℕ) (p : Producer A)
    → IsBounded n s
    → HasRoom s.queue.capacity s.queue.head p
    → IsBounded (n + 1) (record s { producers = set s.producers i p })
kept s i p v r = record {
  small = v.small;
  ordered = v.ordered;
  bounded = v.bounded;
  counted = omega (arith, v.counted);
  room = room-set s.queue.capacity s.queue.head s.producers i p r v.room;
}

push_step-IsBounded {ℓ} :
    {A : Type ℓ} {n : ℕ} (s : System A) (i : ℕ) (p : Producer A)
    → n + 1 < 2 ^ 64
    → IsBounded n s
    → HasRoom s.queue.capacity s.queue.head p
    → IsBounded (n + 1) (record {
      queue = (push_step s.queue p).0;
      producers = set s.producers i (push_step s.queue p).1;
    })
unfolding push_step
push_step-IsBounded s i (loads_tail a) fits v r =
    kept s i (loads_head a s.queue.tail) v (omega (arith, v.counted))
push_step-IsBounded s i (loads_head a t) fits v r =
    elim (Bool-cases (leb s.queue.capacity (sub_u64 t s.queue.head))) [
      | inl full ↦ rw full (kept s i refused v tt)
      | inr free ↦
          rw free (kept s i (exchanges a t s.queue.head) v (ground (arith, v.counted, v.ordered)))
    ]
push_step-IsBounded {n = n} s i (exchanges a t h) fits v r = elim (Bool-cases (s.queue.tail == t)) [
  | inl won ↦
      let same : s.queue.tail ≡ t = ground arith in
      rw won (record {
        small = v.small;
        ordered = omega (arith, r, same, v.ordered, v.counted);
        bounded = omega (arith, r, same, v.ordered, v.counted, v.bounded);
        counted = omega (arith, same, v.counted);
        room = room-set s.queue.capacity s.queue.head s.producers i (writes a t) tt v.room;
      })
  | inr lost ↦ rw lost (kept s i (loads_head a s.queue.tail) v (omega (arith, v.counted)))
]
push_step-IsBounded s i (writes a t) fits v r = record {
  small = v.small;
  ordered = v.ordered;
  bounded = v.bounded;
  counted = omega (arith, v.counted);
  room = room-set s.queue.capacity s.queue.head s.producers i pushed tt v.room;
}
push_step-IsBounded s i pushed fits v r = kept s i pushed v tt
push_step-IsBounded s i refused fits v r = kept s i refused v tt

-- A pop moves at most the head, and only towards the tail.
try_pop_moves {ℓ} :
    {A : Type ℓ} (q : MpscQueue A)
    → ((try_pop q).1.capacity ≡ q.capacity)
      × ((try_pop q).1.tail ≡ q.tail)
      × (((try_pop q).1.head ≡ q.head)
          ⊎ ((q.head < q.tail) × ((try_pop q).1.head ≡ u64 (q.head + 1))))
unfolding try_pop
try_pop_moves q = ground arith

try_pop-IsBounded {ℓ} :
    {A : Type ℓ} {n : ℕ} (s : System A)
    → n < 2 ^ 64
    → IsBounded n s
    → IsBounded (n + 1) (record s { queue = (try_pop s.queue).1 })
try_pop-IsBounded s fits v =
    let (c, t, h) = try_pop_moves s.queue in
    record {
      small = rw c v.small;
      ordered = omega (arith, t, h, v.ordered, v.counted);
      bounded = omega (arith, c, t, h, v.bounded, v.counted);
      counted = omega (arith, t, v.counted);
      room = rw c (
          room-later s.queue.capacity s.queue.head (try_pop s.queue).1.head s.producers
            (omega (arith, h, v.ordered, v.counted)) v.room);
    }

step-IsBounded {ℓ} :
    {A : Type ℓ} {n : ℕ} {s t : System A}
    → n + 1 < 2 ^ 64
    → IsBounded n s
    → Step s t
    → IsBounded (n + 1) t
step-IsBounded fits v (calls a) = record {
  small = v.small;
  ordered = v.ordered;
  bounded = v.bounded;
  counted = omega (arith, v.counted);
  room = (tt, v.room);
}
step-IsBounded {s = s} fits v (pushes {p = p} i e) =
    push_step-IsBounded s i p fits v
      (room-get s.queue.capacity s.queue.head s.producers i p e v.room)
step-IsBounded {s = s} fits v (fails {v = a} i e) =
    kept s i (loads_head a s.queue.tail) v (omega (arith, v.counted))
step-IsBounded {s = s} fits v pops = try_pop-IsBounded s (omega arith) v

steps-IsBounded {ℓ} :
    {A : Type ℓ} {n : ℕ} {s t : System A} → n < 2 ^ 64 → IsBounded 0 s → Steps n s t → IsBounded n t
steps-IsBounded fits v (rests s) = v
steps-IsBounded fits v (steps {n = n} {u = u} before step) =
    let same : suc n ≡ n + 1 = omega arith in
    rw same (step-IsBounded (omega arith) (steps-IsBounded (omega arith) v before) step)

-- A new queue without producers.
abbrev pub initial {ℓ} : {A : Type ℓ} → ℕ → System A
initial requested = record { queue = make requested; producers = [] }

-- From a new queue, whatever producers and consumer do, in any order and for fewer than 2 ^ 64 steps:
-- no more places are reserved than the capacity, and the head does not pass the tail.
pub reachable-IsBounded {ℓ} :
    {A : Type ℓ} {n : ℕ} {t : System A} (requested : ℕ)
    → requested ≤ 2 ^ 63
    → n < 2 ^ 64
    → Steps n (initial requested) t
    → IsBounded n t
unfolding make
reachable-IsBounded requested small fits path =
    let c = round_up_power_of_two-IsCapacity requested small in
    let start : IsBounded 0 (initial requested) = record {
      small = c.small;
      ordered = omega arith;
      bounded = omega arith;
      counted = omega arith;
      room = tt;
    } in
    steps-IsBounded fits start path
