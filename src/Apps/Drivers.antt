-- ===== src/Apps/Drivers.antt =====
-- The simulation drivers apps/run_sim_order.cpp and apps/run_sim_market.cpp: what they start, with which
-- arguments, and what they stop. What `fork` answers is an input; the waiting times and the prints are
-- left out. The life of the child itself is `execv`.
pub mod Order
pub mod Market
pub mod Summary
pub mod Children
pub mod Arrive
mod Tests
use usn_hft_sim.Base.{
  ℕ, Bool, true, false, ◌||◌, Option, none, some, List, [], ◌∷◌, ◌++◌, if◌then◌else◌,
}
use usn_hft_sim.Base.Text.{codes, same}
use usn_hft_sim.Base.Maps.{remove}
use usn_hft_sim.Apps.CommandLine.{Bytes}

-- What a driver does to its children, in order.
pub data Event : Type 0 where
  spawned : (pid : ℕ) → (path : Bytes) → (args : List Bytes) → Event
  signalled : (pid : ℕ) → Event
  reaped : (pid : ℕ) → Event

-- `spawn_process` in the parent, where `fork` answers the number of the child or fails: the answer, and
-- what has been done.
unfoldable pub spawn_process : Option ℕ → (path : Bytes) → List Bytes → List Event
spawn_process none path args = []
spawn_process (some pid) path args = spawned pid path args ∷ []

-- `stop_process`: `kill` with SIGINT, and `waitpid`.
unfoldable pub stop_process : ℕ → List Event
stop_process pid = signalled pid ∷ reaped pid ∷ []

-- `--help` among the arguments.
unfoldable pub asks_help : List Bytes → Bool
asks_help [] = false
asks_help (arg ∷ argv) = same arg (codes "--help") || asks_help argv

-- The loop over the pairs, which ends at the first key that is not known.
unfoldable pub each_known :
    {A : Type 0} → (A → Bytes → Bytes → Option A) → List Bytes → A → Option A
each_known set [] o = some o
each_known set (key ∷ []) o = some o
each_known set (key ∷ val ∷ argv) o = elim (set o key val) [
  | none ↦ none
  | some o' ↦ each_known set argv o'
]

-- The children that run after some events, the last one first.
unfoldable pub alive : List Event → List ℕ → List ℕ
alive [] pids = pids
alive (spawned pid path args ∷ events) pids = alive events (pid ∷ pids)
alive (signalled pid ∷ events) pids = alive events pids
alive (reaped pid ∷ events) pids = alive events (remove pid pids)
