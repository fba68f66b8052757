-- ===== src/Core/Pool/Chain.antt =====
-- Lists of block indices, and chains of them through the array of the pool.
use usn_hft_sim.Base.{
  ℕ, zero, suc, ◌+◌, ◌-◌, ◌*◌, ◌/◌, ◌≤◌, ◌<◌, ◌≡◌, ◌≢◌, refl, ap, ◌∙◌, arith, Bool, true, false,
  not, ◌&&◌, ◌||◌, List, [], ◌∷◌, ◌==◌, if◌then◌else◌, length, length-set, get_or, set,
  get_or-set_ne,
}
use native.Mathlib.Nat.{mul-add-div_right, div-eq_of_lt, mul-le-mul_left, mul-suc, mul_comm}
use usn_hft_sim.Core.Pool.{size_max, links, count_free}

-- The index is in the list.
unfoldable pub has : List ℕ → ℕ → Bool
has [] i = false
has (x ∷ xs) i = x == i || has xs i

-- From `start`, the entries lead through `free`, without repetition and inside the array, to the end.
abbrev pub IsChain : (free_list : List ℕ) (start : ℕ) (free : List ℕ) → Type 0
IsChain free_list start [] = start ≡ size_max
IsChain free_list start (i ∷ free) =
    (start ≡ i)
    × (i < length free_list)
    × (has free i ≡ false)
    × IsChain free_list (get_or free_list i size_max) free

-- No index is in a list twice.
abbrev pub AreDistinct : List ℕ → Type 0
AreDistinct [] = Unit
AreDistinct (x ∷ xs) = (has xs x ≡ false) × AreDistinct xs

-- The list without the first place of the index.
unfoldable pub remove : List ℕ → ℕ → List ℕ
remove [] i = []
remove (x ∷ xs) i = if x == i then xs else x ∷ remove xs i

-- The indices from `i` on, `n` of them.
abbrev pub upto : (i n : ℕ) → List ℕ
upto i zero = []
upto i (suc n) = i ∷ upto (i + 1) n

-- Writing an entry outside a chain does not change it.
pub set-IsChain :
    (free_list : List ℕ) (i v start : ℕ) (free : List ℕ)
    → has free i ≡ false
    → IsChain free_list start free
    → IsChain (set free_list i v) start free
unfolding has
set-IsChain free_list i v start [] h c = c
set-IsChain free_list i v start (j ∷ free) h c =
    let other : i ≢ j = λ e. ground arith in
    let same : get_or (set free_list i v) j size_max ≡ get_or free_list j size_max =
      get_or-set_ne free_list i j v size_max other in
    let long : length (set free_list i v) ≡ length free_list = length-set free_list i v in
    (
      c.0,
      omega arith,
      c.2,
      rw same (set-IsChain free_list i v (get_or free_list j size_max) free (ground arith) c.3),
    )

pub has_self : (i : ℕ) (xs : List ℕ) → has (i ∷ xs) i ≡ true
unfolding has
has_self i xs = ground arith

-- The block that is given back leaves them.
pub has-remove :
    (used : List ℕ) (i j : ℕ)
    → AreDistinct used
    → has (remove used i) j ≡ (has used j && not (i == j))
unfolding has remove
has-remove [] i j d = refl
has-remove (x ∷ used) i j d = ground (arith, has-remove used i j)

pub remove-AreDistinct : (used : List ℕ) (i : ℕ) → AreDistinct used → AreDistinct (remove used i)
unfolding has remove
remove-AreDistinct [] i d = d
remove-AreDistinct (x ∷ used) i d = ground (arith, remove-AreDistinct used i, has-remove used i x)

pub length-remove :
    (used : List ℕ) (i : ℕ) → has used i ≡ true → length (remove used i) + 1 ≡ length used
unfolding has remove
length-remove [] i h = absurd (ground arith)
length-remove (x ∷ used) i h = ground (arith, length-remove used i)

-- The address of a byte inside a block leads back to the block.
pub index_of :
    (base size i offset : ℕ) → offset < size → (base + i * size + offset - base) / size ≡ i
index_of base size i offset h =
    let shift : base + i * size + offset - base ≡ i * size + offset = omega arith in
    ap (λ (t : ℕ). t / size) shift
    ∙ mul-add-div_right (omega arith) i offset
    ∙ ap (λ (t : ℕ). i + t) (div-eq_of_lt h)
    ∙ (omega arith)

pub inside_pool : (size n i offset : ℕ) → offset < size → i < n → i * size + offset < size * n
inside_pool size n i offset h k =
    omega (arith, mul-le-mul_left size k, mul-suc size i, mul_comm size i)

pub counted :
    (n count start : ℕ) (free_list free : List ℕ)
    → length free ≤ n
    → length free_list ≤ size_max
    → IsChain free_list start free
    → count_free n count start free_list ≡ count + length free
unfolding count_free
counted zero count start free_list [] h k c = omega arith
counted zero count start free_list (i ∷ free) h k c = absurd (omega arith)
counted (suc n) count start free_list [] h k c = ground arith
counted (suc n) count start free_list (i ∷ free) h k c =
    ground (arith, counted n (count + 1) (get_or free_list i size_max) free_list free)

pub length-links : (n i : ℕ) → length (links n i) ≡ n + 1
unfolding links
length-links zero i = refl
length-links (suc n) i = omega (arith, length-links n (i + 1))

pub get_or-links :
    (n i j : ℕ) → j ≤ n → get_or (links n i) j size_max ≡ (if j == n then size_max else i + j + 1)
unfolding links
get_or-links zero i zero h = ground arith
get_or-links zero i (suc j) h = absurd (omega arith)
get_or-links (suc n) i zero h = ground arith
get_or-links (suc n) i (suc j) h = ground (arith, get_or-links n (i + 1) j)

pub has-upto : (i j n : ℕ) → i < j → has (upto j n) i ≡ false
unfolding has
has-upto i j zero h = refl
has-upto i j (suc n) h = ground (arith, has-upto i (j + 1) n)

pub length-upto : (i n : ℕ) → length (upto i n) ≡ n
length-upto i zero = refl
length-upto i (suc n) = omega (arith, length-upto (i + 1) n)

pub links-IsChain :
    (n start k : ℕ)
    → start + k ≡ n + 1
    → IsChain (links n 0) (if k == 0 then size_max else start) (upto start k)
links-IsChain n start zero h = ground arith
links-IsChain n start (suc k) h =
    let more : (suc k == 0) ≡ false = ground arith in
    let next : get_or (links n 0) start size_max ≡ (if k == 0 then size_max else start + 1) =
      ground (arith, get_or-links n 0 start) in
    (
      rw more refl,
      omega (arith, length-links n 0),
      has-upto start (start + 1) k (omega arith),
      rw next (links-IsChain n (start + 1) k (omega arith)),
    )
