-- ===== src/Core/Pool/Blocks.antt =====
-- The free blocks are a chain through the array: no block is handed out twice.
use usn_hft_sim.Base.{
  ℕ, ◌+◌, ◌-◌, ◌*◌, ◌/◌, ◌<◌, ◌≡◌, refl, ap, ◌∙◌, arith, Bool, true, false, ◌||◌, none, some, List,
  [], ◌∷◌, ltb, leb, ◌==◌, if◌then◌else◌, length, length-set, get_or-set_self, Bool-cases, inl, inr,
}
use usn_hft_sim.Core.Pool.{MemoryPool, size_max, make, allocate, deallocate, available}
use usn_hft_sim.Core.Pool.Chain.{
  has, IsChain, AreDistinct, remove, upto, set-IsChain, has_self, has-remove, remove-AreDistinct,
  length-remove, index_of, inside_pool, counted, length-links, length-upto, links-IsChain,
}

-- A pool with these free blocks, in the order in which they will be handed out, and these in use.
pub record IsValid (p : MemoryPool) (free used : List ℕ) : Type 0 where
  pub chain : IsChain p.free_list p.next_free free
  pub slots : length p.free_list ≡ p.num_blocks
  pub small : p.num_blocks < size_max
  pub sized : 0 < p.block_size
  pub all : length free + length used ≡ p.num_blocks
  pub distinct : AreDistinct used
  pub apart : (i : ℕ) → has used i ≡ true → (has free i ≡ false) × (i < p.num_blocks)

-- The address of a block.
abbrev pub block : MemoryPool → ℕ → ℕ
block p i = p.base + i * p.block_size

-- The block that is handed out joins those in use.
taken_apart :
    {i n : ℕ} (rest used : List ℕ)
    → has rest i ≡ false
    → i < n
    → ((j : ℕ) → has used j ≡ true → (has (i ∷ rest) j ≡ false) × (j < n))
    → (j : ℕ) → has (i ∷ used) j ≡ true
    → (has rest j ≡ false) × (j < n)
unfolding has
taken_apart {i} {n} rest used out inside apart j h = ground (arith, apart j)

-- What `allocate` does to a pool with these blocks.
abbrev pub Allocates : MemoryPool → (free used : List ℕ) → Type 0
Allocates p [] used = allocate p ≡ (none, p)
Allocates p (i ∷ rest) used =
    ((allocate p).0 ≡ some (block p i))
    × (has used i ≡ false)
    × IsValid (allocate p).1 rest (i ∷ used)

-- `allocate` hands out the first free block, which is not in use, and that block is in use from then
-- on; where no block is free it returns the null pointer and changes nothing.
pub allocate_lem :
    {p : MemoryPool} (free used : List ℕ) → IsValid p free used → Allocates p free used
unfolding allocate
allocate_lem {p} [] used v = ground (arith, v.chain)
allocate_lem {p} (i ∷ rest) used v =
    let c = v.chain in
    let unused : has used i ≡ false = elim (Bool-cases (has used i)) [
      | inl taken ↦ absurd (ground (arith, (v.apart i taken).0, has_self i rest))
      | inr idle ↦ idle
    ] in
    let more : (p.next_free == size_max) ≡ false = ground arith in
    rw more (
      ap (λ (t : ℕ). some (p.base + t * p.block_size)) c.0,
      unused,
      record {
        chain = rw c.0 c.3;
        slots = v.slots;
        small = v.small;
        sized = v.sized;
        all = omega (arith, v.all);
        distinct = (unused, v.distinct);
        apart = taken_apart rest used c.2 (omega (arith, c.1, v.slots)) v.apart;
      },
    )

given_apart :
    {n : ℕ} (free used : List ℕ) (i : ℕ)
    → AreDistinct used
    → ((j : ℕ) → has used j ≡ true → (has free j ≡ false) × (j < n))
    → (j : ℕ) → has (remove used i) j ≡ true
    → (has (i ∷ free) j ≡ false) × (j < n)
unfolding has
given_apart free used i d apart j h = ground (arith, apart j, has-remove used i j d)

-- A block in use that is given back, at any address inside it, is the next to be handed out and is not
-- in use any more; the other blocks stay as they were.
pub deallocate-IsValid :
    {p : MemoryPool} {free used : List ℕ} (i offset : ℕ)
    → IsValid p free used
    → has used i ≡ true
    → offset < p.block_size
    → IsValid (deallocate p (block p i + offset)) (i ∷ free) (remove used i)
unfolding deallocate
deallocate-IsValid {p} {free} {used} i offset v h fits =
    let (out, inside) = v.apart i h in
    let at : (block p i + offset - p.base) / p.block_size ≡ i =
      index_of p.base p.block_size i offset fits in
    let bounds : (ltb (block p i + offset) p.base
          || leb (p.base + p.block_size * p.num_blocks) (block p i + offset))
        ≡ false =
      ground (arith, inside_pool p.block_size p.num_blocks i offset fits inside) in
    rw (bounds, at)
      (record {
        chain = (
          refl,
          omega (arith, length-set p.free_list i p.next_free, v.slots, inside),
          out,
          rw (get_or-set_self p.free_list i p.next_free size_max (omega (arith, v.slots, inside)))
              (set-IsChain p.free_list i p.next_free p.next_free free out v.chain),
        );
        slots = length-set p.free_list i p.next_free ∙ v.slots;
        small = v.small;
        sized = v.sized;
        all = omega (arith, v.all, length-remove used i h);
        distinct = remove-AreDistinct used i v.distinct;
        apart = given_apart free used i v.distinct v.apart;
      })

-- `available` counts the free blocks.
pub available-eq-length :
    {p : MemoryPool} {free used : List ℕ} → IsValid p free used → available p ≡ length free
unfolding available
available-eq-length {p} {free} {used} v = omega (
  arith,
  counted p.num_blocks 0 p.next_free p.free_list free (omega (arith, v.all))
      (omega (arith, v.slots, v.small)) v.chain,
)

-- At first every block is free.
pub make-IsValid :
    (block_size num_blocks base : ℕ)
    → 0 < block_size
    → 0 < num_blocks
    → num_blocks < size_max
    → IsValid (make block_size num_blocks base) (upto 0 num_blocks) []
unfolding make has
make-IsValid block_size num_blocks base hb hn hs = record {
  chain =
      let some_blocks : (num_blocks == 0) ≡ false = ground arith in
      rw (ap (λ (b : Bool). if b then size_max else 0) some_blocks) at
        (links-IsChain (num_blocks - 1) 0 num_blocks (omega arith));
  slots = omega (arith, length-links (num_blocks - 1) 0);
  small = hs;
  sized = hb;
  all = omega (arith, length-upto 0 num_blocks);
  distinct = tt;
  apart = λ j h. absurd (ground arith);
}
