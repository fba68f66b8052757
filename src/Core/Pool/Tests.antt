-- ===== src/Core/Pool/Tests.antt =====
-- The pool on small inputs.
use usn_hft_sim.Base.{◌≡◌, false, some, none, [], ◌∷◌, refl, arith}
use usn_hft_sim.Core.Pool.{MemoryPool, make, links, allocate}
use usn_hft_sim.Core.Pool.Chain.{has}
use usn_hft_sim.Core.Pool.Blocks.{IsValid, block, make-IsValid, allocate_lem}

abbrev three : MemoryPool
three = make 64 3 1000

three-IsValid : IsValid three (0 ∷ 1 ∷ 2 ∷ []) []
three-IsValid = make-IsValid 64 3 1000 (omega arith) (omega arith) (omega arith)

third_is_last : (allocate (allocate (allocate (allocate three).1).1).1).0 ≡ none
unfolding allocate make links
third_is_last = refl

allocate_lem_example :
    ((allocate three).0 ≡ some (block three 0))
    × (has [] 0 ≡ false)
    × IsValid (allocate three).1 (1 ∷ 2 ∷ []) (0 ∷ [])
allocate_lem_example = allocate_lem {p = three} (0 ∷ 1 ∷ 2 ∷ []) [] three-IsValid

one_taken : IsValid (allocate three).1 (1 ∷ 2 ∷ []) (0 ∷ [])
one_taken = (allocate_lem {p = three} (0 ∷ 1 ∷ 2 ∷ []) [] three-IsValid).2
