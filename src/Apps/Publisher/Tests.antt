-- ===== src/Apps/Publisher/Tests.antt =====
-- A few rounds of the publisher, over a socket that takes everything.
use usn_hft_sim.Base.{ℕ, ◌≤◌, ◌≡◌, refl, arith, true, false, List, [], ◌∷◌, ◌++◌, length, map}
use mathlib.Core.List.{Permᴰ}
use usn_hft_sim.Base.Ints.{pos}
use usn_hft_sim.Apps.Messages.{MarketDataIncrement}
use usn_hft_sim.Apps.Publisher.{Options, at_start, Draw, next_increment, Socket, run}
use usn_hft_sim.Apps.Publisher.Delivery.{made, all_of, nothing_is_lost}

abbrev options : Options
options = record { payload_size = 64; streams = 2 }

abbrev draw : (now_ns : ℕ) → Draw
draw now_ns = record { now_ns = now_ns; drops = false; reorders = false }

-- The second is dropped, the third overtakes the first.
abbrev draws : List Draw
draws =
    draw 100
    ∷ record { now_ns = 200; drops = true; reorders = false }
    ∷ record { now_ns = 300; drops = false; reorders = true }
    ∷ draw 400
    ∷ []

abbrev takes_all : Socket
takes_all sent d = pos (length d)

abbrev numbers : List MarketDataIncrement → List ℕ
numbers messages = map (λ (m : MarketDataIncrement). m.seq) messages

kept_numbers : numbers (made options 1 draws) ≡ 1 ∷ 3 ∷ 4 ∷ []
unfolding made next_increment
kept_numbers = refl

nothing_is_lost_example :
    let (goes_on, p') = run options takes_all draws at_start in
    (goes_on ≡ true) × (length p'.reorder_q ≤ 1) × Permᴰ (all_of p') ([] ++ made options 1 draws)
nothing_is_lost_example =
    nothing_is_lost options takes_all draws at_start (λ sent d. refl) (omega arith)
