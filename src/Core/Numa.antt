-- ===== src/Core/Numa.antt =====
-- include/usn/optimization/numa_utils.hpp: the topology and the binding of threads. What libnuma and
-- `pthread_setaffinity_np` answer is a parameter; the memory itself is the system's.
pub mod Binding
mod Tests
use usn_hft_sim.Base.{
  ℕ, zero, suc, ◌+◌, ◌/◌, Bool, true, false, not, ◌||◌, Option, none, some, List, [], ◌∷◌, length,
  get_elem?, ltb, leb, if◌then◌else◌,
}
use usn_hft_sim.Base.Ints.{ℤ, pos, negsuc, at_least_zero}

-- `node_to_cpus` answers with the mask of a node, or fails, and `weight` is that of the mask.
-- `set_affinity` is the answer for a set of processors, and `left_over` what the memory of a field
-- holds that is never written.
pub record System : Type 0 where
  pub has_numa : Bool
  pub max_node : ℕ
  pub possible_cpus : ℕ
  pub node_to_cpus : ℕ → Option (ℕ → Bool)
  pub weight : ℕ → ℕ
  pub node_size : ℕ → ℤ
  pub set_affinity : List ℕ → Bool
  pub left_over : ℕ

pub record NumaNode : Type 0 where
  pub id : ℕ
  pub num_cpus : ℕ
  pub cpu_ids : List ℕ
  pub free_memory : ℕ

pub record NumaTopology : Type 0 where
  pub numa_available : Bool
  pub num_nodes : ℕ
  pub max_node : ℕ
  pub nodes : List NumaNode

abbrev pub undetected : NumaTopology
undetected = record { numa_available = false; num_nodes = 1; max_node = 0; nodes = [] }

-- The loop over the processors from `cpu`, with `left` of them to go.
unfoldable pub cpus_of : (is_set : ℕ → Bool) → (left cpu : ℕ) → List ℕ
cpus_of is_set zero cpu = []
cpus_of is_set (suc left) cpu =
    let rest = cpus_of is_set left (cpu + 1) in if is_set cpu then cpu ∷ rest else rest

-- A node whose mask cannot be read has no processors, and its `num_cpus` is never written.
unfoldable pub node_info : System → ℕ → NumaNode
unfolding cpus_of
node_info sys node = record {
  id = node;
  num_cpus = elim (sys.node_to_cpus node) [ none ↦ sys.left_over | some is_set ↦ sys.weight node ];
  cpu_ids = elim (sys.node_to_cpus node) [
    | none ↦ []
    | some is_set ↦ cpus_of is_set sys.possible_cpus 0
  ];
  free_memory = at_least_zero (sys.node_size node) / 1024;
}

unfoldable pub node_infos : System → (left node : ℕ) → List NumaNode
node_infos sys zero node = []
node_infos sys (suc left) node = node_info sys node ∷ node_infos sys left (node + 1)

unfoldable pub detect : System → NumaTopology → Bool × NumaTopology
detect sys t = if not sys.has_numa then (false, record t { numa_available = false }) else (
  true,
  record {
    numa_available = true;
    num_nodes = sys.max_node + 1;
    max_node = sys.max_node;
    nodes = node_infos sys (sys.max_node + 1) 0;
  },
)

-- `instance`: the topology that the constructor detects.
unfoldable pub instance_of : System → NumaTopology
instance_of sys = (detect sys undetected).1

-- Which allocator a call goes to.
pub data Allocator : Type 0 where
  heap : Allocator
  on_node : (node : ℕ) → Allocator

unfoldable pub allocate_on_node : NumaTopology → (node : ℕ) → Allocator
allocate_on_node t node = if not t.numa_available then heap else on_node node

-- Whether `free_on_node` calls `free`, and not `numa_free`.
unfoldable pub frees_on_heap : NumaTopology → Bool
frees_on_heap t = not t.numa_available

unfoldable pub get_current_node : NumaTopology → (node_of_cpu : ℕ) → ℕ
get_current_node t node_of_cpu = if not t.numa_available then 0 else node_of_cpu

-- `CPU_ZERO` and `CPU_SET`, which passes over a number beyond the 1024 of a `cpu_set_t`.
unfoldable pub cpu_set : List ℕ → List ℕ
cpu_set [] = []
cpu_set (cpu ∷ cpus) = let rest = cpu_set cpus in if ltb cpu 1024 then cpu ∷ rest else rest

unfoldable pub set_affinity_mask : System → List ℕ → Bool
unfolding cpu_set
set_affinity_mask sys cpu_ids = sys.set_affinity (cpu_set cpu_ids)

unfoldable pub bind_to_cpu : System → ℕ → Bool
unfolding cpu_set
bind_to_cpu sys cpu_id = sys.set_affinity (cpu_set (cpu_id ∷ []))

-- With what the call answers for another thread.
unfoldable pub bind_thread_to_cpu : (set_affinity : List ℕ → Bool) → ℕ → Bool
unfolding cpu_set
bind_thread_to_cpu set_affinity cpu_id = set_affinity (cpu_set (cpu_id ∷ []))

unfoldable pub bind_to_first : System → Option NumaNode → Bool
unfolding bind_to_cpu
bind_to_first sys none = false
bind_to_first sys (some node) = elim node.cpu_ids [ [] ↦ false | cpu ∷ cpus ↦ bind_to_cpu sys cpu ]

-- `none` is a negative number, which passes both tests and reads `nodes` before its start.
unfoldable pub bind_to_numa_node : System → NumaTopology → ℤ → Option Bool
unfolding bind_to_first
bind_to_numa_node sys t (negsuc n) = if not t.numa_available then some false else none
bind_to_numa_node sys t (pos node_id) =
    if not t.numa_available || leb t.num_nodes node_id
    then some false
    else some (bind_to_first sys (get_elem? t.nodes node_id))
