-- ===== src/Core/Numa/Tests.antt =====
-- Two nodes with two processors each; the mask of a third cannot be read.
use usn_hft_sim.Base.{
  ℕ, ◌+◌, ◌*◌, ◌≡◌, refl, arith, Bool, true, ◌&&◌, none, some, [], ◌∷◌, length, leb, ltb,
  if◌then◌else◌,
}
use usn_hft_sim.Base.Ints.{pos, negsuc}
use usn_hft_sim.Core.Numa.{System, detect, instance_of, node_info, bind_to_numa_node}
use usn_hft_sim.Core.Numa.Binding.{IsLowest, binds_to_lowest}

abbrev half : ℕ → ℕ → Bool
half node cpu = leb (2 * node) cpu && ltb cpu (2 * node + 2)

abbrev machine : System
machine = record {
  has_numa = true;
  max_node = 2;
  possible_cpus = 4;
  node_to_cpus = λ node. if ltb node 2 then some (half node) else none;
  weight = λ node. 2;
  node_size = λ node. pos 4096;
  set_affinity = λ cpus. ltb (length cpus) 2;
  left_over = 77;
}

second_node :
    node_info machine 1 ≡ record { id = 1; num_cpus = 2; cpu_ids = 2 ∷ 3 ∷ []; free_memory = 4 }
unfolding node_info
second_node = refl

-- The count of a node with no mask is whatever the memory held.
third_node : node_info machine 2 ≡ record { id = 2; num_cpus = 77; cpu_ids = []; free_memory = 4 }
unfolding node_info
third_node = refl

-- A negative node reads before the start of the nodes.
negative_node : bind_to_numa_node machine (instance_of machine) (negsuc 0) ≡ none
unfolding bind_to_numa_node instance_of detect
negative_node = refl

two-IsLowest : IsLowest (half 1) 0 2
two-IsLowest = (omega arith, refl, λ k above below. ground arith)

binds_to_lowest_example :
    bind_to_numa_node machine (instance_of machine) (pos 1) ≡ some (machine.set_affinity (2 ∷ []))
binds_to_lowest_example =
    binds_to_lowest machine 1 2 (half 1) refl (omega arith) refl two-IsLowest (omega arith)
      (omega arith)
