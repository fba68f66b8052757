-- ===== src/Core/ZeroCopy/Same.antt =====
-- The pool over a mapping behaves as the pool over an array.
use usn_hft_sim.Base.{
  ℕ, ◌+◌, ◌*◌, ◌<◌, ◌≡◌, refl, ap, ap₂, ◌∙◌, arith, ◌||◌, inl, inr, Bool-cases, Option, List, [],
  ◌∷◌, ltb, leb, ◌==◌,
}
use usn_hft_sim.Core.Packet.{null}
use usn_hft_sim.Core.Pool
use usn_hft_sim.Core.Pool.{MemoryPool, size_max}
use usn_hft_sim.Core.ZeroCopy.{ZeroCopyMemoryPool, allocate, deallocate}

-- The array pool with the same blocks.
abbrev pub view : ZeroCopyMemoryPool → MemoryPool
view p = record {
  block_size = p.block_size;
  num_blocks = p.num_blocks;
  base = p.buffer.ptr;
  free_list = p.free_list;
  next_free = p.next_free;
}

-- The mapping is as long as the blocks, and not at address 0.
abbrev pub IsMapped : ZeroCopyMemoryPool → Type 0
IsMapped p = (p.buffer.size ≡ p.block_size * p.num_blocks) × (0 < p.buffer.ptr)

pub data Op : Type 0 where
  take_block : Op
  give_back : (ptr : ℕ) → Op

-- The blocks handed out by a sequence of calls, and the pool.
unfoldable pub run : List Op → ZeroCopyMemoryPool → List (Option ℕ) × ZeroCopyMemoryPool
run [] p = ([], p)
run (take_block ∷ ops) p =
    let (block, p') = allocate p in let (blocks, q) = run ops p' in (block ∷ blocks, q)
run (give_back ptr ∷ ops) p = run ops (deallocate p ptr)

unfoldable pub run_array : List Op → MemoryPool → List (Option ℕ) × MemoryPool
run_array [] p = ([], p)
run_array (take_block ∷ ops) p =
    let (block, p') = Pool.allocate p in let (blocks, q) = run_array ops p' in (block ∷ blocks, q)
run_array (give_back ptr ∷ ops) p = run_array ops (Pool.deallocate p ptr)

same_allocate :
    (p : ZeroCopyMemoryPool)
    → IsMapped p
    → ((allocate p).0 ≡ (Pool.allocate (view p)).0)
      × (view (allocate p).1 ≡ (Pool.allocate (view p)).1)
      × IsMapped (allocate p).1
unfolding allocate Pool.allocate
same_allocate p v = elim (Bool-cases (p.next_free == size_max)) [
  | inl exhausted ↦ rw exhausted (refl, refl, v)
  | inr more ↦ rw more (refl, refl, v)
]

same_test :
    (p : ZeroCopyMemoryPool) (ptr : ℕ)
    → IsMapped p
    → (ptr == null || (ltb ptr p.buffer.ptr || leb (p.buffer.ptr + p.buffer.size) ptr))
      ≡ (ltb ptr p.buffer.ptr || leb (p.buffer.ptr + p.block_size * p.num_blocks) ptr)
same_test p ptr (size, pos) = ground (arith, size, pos)

same_deallocate :
    (p : ZeroCopyMemoryPool) (ptr : ℕ)
    → IsMapped p
    → (view (deallocate p ptr) ≡ Pool.deallocate (view p) ptr) × IsMapped (deallocate p ptr)
unfolding deallocate Pool.deallocate
same_deallocate p ptr v =
    elim (Bool-cases
      (ltb ptr p.buffer.ptr || leb (p.buffer.ptr + p.block_size * p.num_blocks) ptr)) [
        | inl outside ↦ rw (same_test p ptr v, outside) (refl, v)
        | inr inside ↦ rw (same_test p ptr v, inside) (refl, v)
      ]

-- Whatever blocks are taken and given back, in whatever order, the pool over a mapping hands out the
-- same addresses as the array pool with its blocks at the address of the mapping, and stays that pool.
pub pools_agree :
    (ops : List Op) (p : ZeroCopyMemoryPool)
    → IsMapped p
    → ((run ops p).0 ≡ (run_array ops (view p)).0)
      × (view (run ops p).1 ≡ (run_array ops (view p)).1)
unfolding run run_array
pools_agree [] p v = (refl, refl)
pools_agree (take_block ∷ ops) p v =
    let (block, next, v') = same_allocate p v in
    let (blocks, last) = pools_agree ops (allocate p).1 v' in
    (
      ap₂ (λ (b : Option ℕ) (l : List (Option ℕ)). b ∷ l) block
          (blocks ∙ ap (λ (q : MemoryPool). (run_array ops q).0) next),
      last ∙ ap (λ (q : MemoryPool). (run_array ops q).1) next,
    )
pools_agree (give_back ptr ∷ ops) p v =
    let (next, v') = same_deallocate p ptr v in
    let (blocks, last) = pools_agree ops (deallocate p ptr) v' in
    (
      blocks ∙ ap (λ (q : MemoryPool). (run_array ops q).0) next,
      last ∙ ap (λ (q : MemoryPool). (run_array ops q).1) next,
    )
