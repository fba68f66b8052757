-- ===== src/Core/Numa/Binding.antt =====
-- Where a thread that is bound to a node runs.
use usn_hft_sim.Base.{
  ℕ, zero, suc, ◌+◌, ◌≤◌, ◌<◌, ◌≡◌, ap, ◌∙◌, inl, inr, arith, Bool, true, false, not, Bool-cases,
  Option, none, some, List, [], ◌∷◌, get_elem?, leb, ltb, if◌then◌else◌,
}
use usn_hft_sim.Base.Ints.{pos}
use usn_hft_sim.Core.Numa.{
  System, NumaNode, NumaTopology, cpus_of, node_info, node_infos, undetected, detect, instance_of,
  bind_to_cpu, bind_to_first, bind_to_numa_node,
}

node_infos_at :
    (sys : System) (left node k : ℕ)
    → k < left
    → get_elem? (node_infos sys left node) k ≡ some (node_info sys (node + k))
unfolding node_infos
node_infos_at sys zero node k h = absurd (omega arith)
node_infos_at sys (suc left) node zero h =
    let same : node ≡ node + 0 = omega arith in ap (λ (n : ℕ). some (node_info sys n)) same
node_infos_at sys (suc left) node (suc k) h =
    let same : node + 1 + k ≡ node + suc k = omega arith in
    node_infos_at sys left (node + 1) k (omega arith) ∙ ap (λ (n : ℕ). some (node_info sys n)) same

-- The lowest processor of a mask from `cpu` on.
abbrev pub IsLowest : (is_set : ℕ → Bool) → (cpu c : ℕ) → Type 0
IsLowest is_set cpu c =
    (cpu ≤ c) × (is_set c ≡ true) × ((k : ℕ) → cpu ≤ k → k < c → is_set k ≡ false)

cpus_of_lowest :
    (is_set : ℕ → Bool) (left cpu c : ℕ)
    → IsLowest is_set cpu c
    → c < cpu + left
    → (rest : List ℕ) × (cpus_of is_set left cpu ≡ c ∷ rest)
unfolding cpus_of
cpus_of_lowest is_set zero cpu c v h = absurd (omega (arith, v.0))
cpus_of_lowest is_set (suc left) cpu c (low, hit, before) h = elim (Bool-cases (is_set cpu)) [
  | inl now ↦ elim (Bool-cases (ltb cpu c)) [
    | inl later ↦ cc (before cpu (omega arith) (ground arith))
    | inr here ↦
        let same : cpu ≡ c = ground arith in
        (
          cpus_of is_set left (cpu + 1),
          rw now (ap (λ (n : ℕ). n ∷ cpus_of is_set left (cpu + 1)) same),
        )
  ]
  | inr not_yet ↦
      let further : cpu + 1 ≤ c = ground (arith, ap is_set) in
      let (rest, found) =
        cpus_of_lowest is_set left (cpu + 1) c
          (further, hit, λ k above below. before k (omega arith) below) (omega arith) in
      (rest, rw not_yet found)
]

first_cpu :
    (sys : System) (node c : ℕ) (is_set : ℕ → Bool)
    → sys.node_to_cpus node ≡ some is_set
    → IsLowest is_set 0 c
    → c < sys.possible_cpus
    → bind_to_first sys (some (node_info sys node)) ≡ bind_to_cpu sys c
unfolding bind_to_first node_info
first_cpu sys node c is_set mask v h =
    let (rest, found) = cpus_of_lowest is_set sys.possible_cpus 0 c v (omega arith) in
    let cpus : Option (ℕ → Bool) → List ℕ =
      λ o. elim o [ none ↦ [] | some set ↦ cpus_of set sys.possible_cpus 0 ] in
    let answer : List ℕ → Bool = λ l. elim l [ [] ↦ false | cpu ∷ others ↦ bind_to_cpu sys cpu ] in
    let listed : cpus (sys.node_to_cpus node) ≡ c ∷ rest = ap cpus mask ∙ found in ap answer listed

abbrev listed : System → ℕ → Option NumaNode
listed sys node = get_elem? (node_infos sys (sys.max_node + 1) 0) node

abbrev full : System → NumaTopology
full sys = record {
  numa_available = true;
  num_nodes = sys.max_node + 1;
  max_node = sys.max_node;
  nodes = node_infos sys (sys.max_node + 1) 0;
}

detected : (sys : System) → sys.has_numa ≡ true → instance_of sys ≡ full sys
unfolding instance_of detect
detected sys numa =
    let result : Bool → Bool × NumaTopology = λ b.
      if not b then (false, record undetected { numa_available = false }) else (true, full sys) in
    ap (λ (b : Bool). (result b).1) numa

-- With the topology of its instance, the binding to a node of the system asks for its lowest
-- processor, and for that alone, and answers what the system answers.
pub binds_to_lowest :
    (sys : System) (node c : ℕ) (is_set : ℕ → Bool)
    → sys.has_numa ≡ true
    → node ≤ sys.max_node
    → sys.node_to_cpus node ≡ some is_set
    → IsLowest is_set 0 c
    → c < sys.possible_cpus
    → c < 1024
    → bind_to_numa_node sys (instance_of sys) (pos node) ≡ some (sys.set_affinity (c ∷ []))
unfolding bind_to_numa_node instance_of detect
binds_to_lowest sys node c is_set numa known mask v h fits =
    let inside : leb (sys.max_node + 1) node ≡ false = ground arith in
    let same : 0 + node ≡ node = omega arith in
    let in_set : ltb c 1024 ≡ true = ground arith in
    let alone : bind_to_cpu sys c ≡ sys.set_affinity (c ∷ []) =
      ap (λ (b : Bool). sys.set_affinity (if b then c ∷ [] else [])) in_set in
    ap (λ (t : NumaTopology). bind_to_numa_node sys t (pos node)) (detected sys numa)
    ∙ ap (λ (b : Bool). if b then some false else some (bind_to_first sys (listed sys node))) inside
    ∙ ap (λ (o : Option NumaNode). some (bind_to_first sys o))
        (node_infos_at sys (sys.max_node + 1) 0 node (omega arith))
    ∙ ap (λ (n : ℕ). some (bind_to_first sys (some (node_info sys n)))) same
    ∙ ap (λ (b : Bool). some b) (first_cpu sys node c is_set mask v h ∙ alone)

-- A number beyond the nodes, or any without libnuma, is refused.
pub beyond_is_refused :
    (sys : System) (node : ℕ)
    → sys.max_node < node
    → bind_to_numa_node sys (instance_of sys) (pos node) ≡ some false
unfolding bind_to_numa_node instance_of detect
beyond_is_refused sys node h = ground arith
