-- ===== src/Core/Mpsc/Tests.antt =====
-- The queue on small inputs.
use usn_hft_sim.Base.{ℕ, ◌≡◌, none, [], ◌∷◌, refl, arith}
use usn_hft_sim.Core.Mpsc.{MpscQueue, make, loads_head, refused, push_step, System, calls, pushes}
use usn_hft_sim.Core.Mpsc.Steps.{IsBounded, Steps, rests, steps, initial, reachable-IsBounded}

-- Empty, after five values have come and gone.
abbrev used : MpscQueue ℕ
used = record { capacity = 2; mask = 1; head = 5; tail = 5; buffer = none ∷ none ∷ [] }

-- A producer that read the tail while it was 3 is told that the queue is full.
stale_tail_is_refused : (push_step used (loads_head 9 3)).1 ≡ refused
unfolding push_step
stale_tail_is_refused = refl

-- A call that has read the tail and the head.
abbrev reading : System ℕ
reading = record { queue = make 2; producers = loads_head 9 0 ∷ [] }

reading_is_reached : Steps 2 (initial {A = ℕ} 2) reading
unfolding push_step make
reading_is_reached = steps (steps (rests (initial 2)) (calls 9)) (pushes 0 refl)

reachable-IsBounded_example : IsBounded 2 reading
reachable-IsBounded_example =
    reachable-IsBounded {t = reading} 2 (omega arith) (omega arith) reading_is_reached
