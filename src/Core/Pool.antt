-- ===== src/Core/Pool.antt =====
-- `MemoryPool` of include/usn/core/memory_pool.hpp. Pointers are addresses, and the bytes of the blocks
-- are not modelled; indices are `std::size_t`.
pub mod Chain
pub mod Blocks
mod Tests
use usn_hft_sim.Base.{
  ℕ, zero, suc, ◌+◌, ◌-◌, ◌*◌, ◌/◌, ◌^◌, Bool, ◌||◌, Option, none, some, List, [], ◌∷◌, get_or, set,
  ltb, leb, ◌==◌, not, ◌&&◌, if◌then◌else◌,
}

-- `SIZE_MAX`, the end of the list.
abbrev pub size_max : ℕ
size_max = 2 ^ 64 - 1

-- `data` is the address of the first block.
pub record MemoryPool : Type 0 where
  pub block_size : ℕ
  pub num_blocks : ℕ
  pub base : ℕ
  pub free_list : List ℕ
  pub next_free : ℕ

-- The entries from index `i` on, for `n` blocks that follow it: each names the next, the last none.
unfoldable pub links : (n i : ℕ) → List ℕ
links zero i = size_max ∷ []
links (suc n) i = (i + 1) ∷ links n (i + 1)

-- For at least one block; the code writes outside the array for none.
unfoldable pub make : (block_size num_blocks base : ℕ) → MemoryPool
unfolding links
make block_size num_blocks base = record {
  block_size = block_size;
  num_blocks = num_blocks;
  base = base;
  free_list = links (num_blocks - 1) 0;
  next_free = 0;
}

-- The address of a block; `none` is `nullptr`.
unfoldable pub allocate : MemoryPool → Option ℕ × MemoryPool
allocate p = if p.next_free == size_max then (none, p) else (
  some (p.base + p.next_free * p.block_size),
  record p { next_free = get_or p.free_list p.next_free size_max },
)

unfoldable pub deallocate : MemoryPool → ℕ → MemoryPool
deallocate p ptr =
    let index = (ptr - p.base) / p.block_size in
    if ltb ptr p.base || leb (p.base + p.block_size * p.num_blocks) ptr
    then p
    else record p { free_list = set p.free_list index p.next_free; next_free = index }

-- The loop of `available`, with `n` rounds before `count` reaches `num_blocks`.
unfoldable pub count_free : (n count current : ℕ) → List ℕ → ℕ
count_free zero count current free_list = count
count_free (suc n) count current free_list =
    let rest = count_free n (count + 1) (get_or free_list current size_max) free_list in
    if current == size_max then count else rest

unfoldable pub available : MemoryPool → ℕ
unfolding count_free
available p = count_free p.num_blocks 0 p.next_free p.free_list
