-- ===== src/Core/ZeroCopy.antt =====
-- `ZeroCopyBuffer` and `ZeroCopyMemoryPool` of include/usn/optimization/zero_copy.hpp, as built for
-- Linux. Pointers are addresses; the advice to the kernel about the mapping is left out.
pub mod Same
mod Tests
use usn_hft_sim.Base.{
  ℕ, ◌+◌, ◌-◌, ◌*◌, ◌/◌, Bool, true, false, ◌||◌, Option, none, some, List, get_or, set, ltb, leb,
  ◌==◌, if◌then◌else◌,
}
use usn_hft_sim.Core.Packet.{null}
use usn_hft_sim.Core.Pool.{size_max, links}

pub record ZeroCopyBuffer : Type 0 where
  pub ptr : ℕ
  pub size : ℕ
  pub use_huge_pages : Bool

-- What `mmap` answers for a size, with or without huge pages: the address, or `MAP_FAILED`.
abbrev pub Mmap : Type 0
Mmap = (size : ℕ) → (huge : Bool) → Option ℕ

-- With huge pages a failure is followed by a second try without.
unfoldable pub map_pages : Mmap → (size : ℕ) → (use_huge_pages : Bool) → Option ℕ
map_pages mmap size false = mmap size false
map_pages mmap size true = elim (mmap size true) [ some ptr ↦ some ptr | none ↦ mmap size false ]

unfoldable pub create : Mmap → (size : ℕ) → (use_huge_pages : Bool) → Option ZeroCopyBuffer
create mmap size use_huge_pages = elim (map_pages mmap size use_huge_pages) [
  | none ↦ none
  | some ptr ↦ some (record { ptr = ptr; size = size; use_huge_pages = use_huge_pages })
]

pub record ZeroCopyMemoryPool : Type 0 where
  pub block_size : ℕ
  pub num_blocks : ℕ
  pub buffer : ZeroCopyBuffer
  pub free_list : List ℕ
  pub next_free : ℕ

-- `none` is the exception. For at least one block; the code writes outside the array for none.
unfoldable pub make :
    Mmap → (block_size num_blocks : ℕ) → (use_huge_pages : Bool) → Option ZeroCopyMemoryPool
make mmap block_size num_blocks use_huge_pages =
    elim (create mmap (block_size * num_blocks) use_huge_pages) [
      | none ↦ none
      | some buffer ↦ some (record {
        block_size = block_size;
        num_blocks = num_blocks;
        buffer = buffer;
        free_list = links (num_blocks - 1) 0;
        next_free = 0;
      })
    ]

unfoldable pub allocate : ZeroCopyMemoryPool → Option ℕ × ZeroCopyMemoryPool
allocate p = if p.next_free == size_max then (none, p) else (
  some (p.buffer.ptr + p.next_free * p.block_size),
  record p { next_free = get_or p.free_list p.next_free size_max },
)

unfoldable pub deallocate : ZeroCopyMemoryPool → ℕ → ZeroCopyMemoryPool
deallocate p ptr =
    let index = (ptr - p.buffer.ptr) / p.block_size in
    if ptr == null || (ltb ptr p.buffer.ptr || leb (p.buffer.ptr + p.buffer.size) ptr)
    then p
    else record p { free_list = set p.free_list index p.next_free; next_free = index }

-- The destructor unmaps the buffer, if it has one.
unfoldable pub unmaps : ZeroCopyBuffer → Option (ℕ × ℕ)
unmaps b = if b.ptr == null then none else some (b.ptr, b.size)

-- `lock_memory`: whether `mlock` takes the whole buffer.
unfoldable pub lock_memory : (mlock : ℕ → ℕ → Bool) → ZeroCopyBuffer → Bool
lock_memory mlock b = mlock b.ptr b.size

-- `prefetch`: the address that is fetched; the length is computed and not used.
unfoldable pub prefetch : ZeroCopyBuffer → (offset len : ℕ) → ℕ
prefetch b offset len = b.ptr + offset
