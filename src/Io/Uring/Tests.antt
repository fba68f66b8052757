-- ===== src/Io/Uring/Tests.antt =====
-- Waits on a few attempts, and a peek at a queue that is a list.
use usn_hft_sim.Base.{ℕ, true, false, Option, none, some, List, [], ◌∷◌}
use usn_hft_sim.Base.Ints.{pos}
use usn_hft_sim.Io.Uring.{
  IoUringWaitOptions, etime, completion, failed, Attempt, wait_completions_with_options,
}
use usn_hft_sim.Io.Uring.Seen.{Counted, wait-Counted}

abbrev options : IoUringWaitOptions
options = record { timeout_ms = pos 5; poll_interval_ms = pos 1 }

abbrev attempts : List Attempt
attempts =
    record { reply = completion 8; is_cancelled = false }
    ∷ record { reply = failed etime; is_cancelled = false }
    ∷ []

wait-Counted_example :
    Counted 4 (wait_completions_with_options true options 2 4 false false attempts)
wait-Counted_example = wait-Counted true options 2 4 false false attempts

abbrev head : List ℕ → Option ℕ
head [] = none
head (c ∷ queue) = some c

abbrev tail : List ℕ → List ℕ
tail [] = []
tail (c ∷ queue) = queue
