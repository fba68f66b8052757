-- ===== src/Base/Maps.antt =====
-- `std::unordered_map` with a number as its key, as a list of pairs, and `std::unordered_set`.
use Prim.Native.Nat.{ℕ}
use mathlib.Core.Path.{◌≡◌, refl, sym, ap, subst, ◌∙◌}
use mathlib.Core.Bool.{Bool, true, false, not, ◌&&◌, ◌||◌}
use mathlib.Core.Option.{Option, none, some}
use mathlib.Core.List.{List, [], ◌∷◌, ◌++◌}
use native.Mathlib.Omega.{arith}
use usn_hft_sim.Base.Tests.{◌==◌, if◌then◌else◌, Bool-cases, Option-cases}
use mathlib.Core.Logic.{inl, inr}
use mathlib.Core.Option.{none-ne-some, some-injective}

module _ {ℓ} {A : Type ℓ} where
  abbrev pub find : List (ℕ × A) → ℕ → Option A
  find [] key = none
  find (e ∷ entries) key = let rest = find entries key in if e.0 == key then some e.1 else rest

  abbrev pub erase : List (ℕ × A) → ℕ → List (ℕ × A)
  erase [] key = []
  erase (e ∷ entries) key = let rest = erase entries key in if e.0 == key then rest else e ∷ rest

  -- `emplace` changes nothing if the key is there.
  abbrev pub emplace : List (ℕ × A) → ℕ → A → List (ℕ × A)
  emplace entries key a = elim (find entries key) [ none ↦ (key, a) ∷ entries | some b ↦ entries ]

  -- A write through the reference that `find` gives.
  abbrev pub update : List (ℕ × A) → ℕ → A → List (ℕ × A)
  update [] key a = []
  update (e ∷ entries) key a =
      let rest = update entries key a in if e.0 == key then (key, a) ∷ entries else e ∷ rest

-- `map[key] = a`
abbrev pub assign : {A : Type 0} → List (ℕ × A) → ℕ → A → List (ℕ × A)
assign entries key a = elim (find entries key) [
  | none ↦ entries ++ (key, a) ∷ []
  | some b ↦ update entries key a
]

abbrev pub mem : ℕ → List ℕ → Bool
mem x [] = false
mem x (y ∷ ys) = let rest = mem x ys in if y == x then true else rest

-- `insert` and `erase` of a set.
abbrev pub add : ℕ → List ℕ → List ℕ
add x xs = if mem x xs then xs else x ∷ xs

abbrev pub remove : ℕ → List ℕ → List ℕ
remove x [] = []
remove x (y ∷ ys) = let rest = remove x ys in if y == x then rest else y ∷ rest

pub find-update :
    {A : Type 0} (entries : List (ℕ × A)) (key : ℕ) (a b : A)
    → find entries key ≡ some b
    → find (update entries key a) key ≡ some a
find-update [] key a b h = ground arith
find-update (e ∷ entries) key a b h = ground (arith, find-update entries key a b)

pub find-erase :
    {A : Type 0} (entries : List (ℕ × A)) (key : ℕ) → find (erase entries key) key ≡ none
find-erase [] key = refl
find-erase (e ∷ entries) key = ground (arith, find-erase entries key)

pub find-emplace :
    {A : Type 0} (entries : List (ℕ × A)) (key : ℕ) (a : A)
    → find entries key ≡ none
    → find (emplace entries key a) key ≡ some a
find-emplace entries key a h = ground (arith, h)

find-push_at :
    {A : Type 0} (entries : List (ℕ × A)) (at key : ℕ) (a : A)
    → find entries at ≡ none
    → find (entries ++ (at, a) ∷ []) key ≡ (if key == at then some a else find entries key)
find-push_at [] at key a h = ground arith
find-push_at (e ∷ entries) at key a h = ground (arith, find-push_at entries at key a)

pub find-update_at :
    {A : Type 0} (entries : List (ℕ × A)) (at key : ℕ) (a b : A)
    → find entries at ≡ some b
    → find (update entries at a) key ≡ (if key == at then some a else find entries key)
find-update_at [] at key a b h = absurd (none-ne-some b h)
find-update_at (e ∷ entries) at key a b h = ground (arith, find-update_at entries at key a b)

pub find-assign_at :
    {A : Type 0} (entries : List (ℕ × A)) (at key : ℕ) (a : A)
    → find (assign entries at a) key ≡ (if key == at then some a else find entries key)
find-assign_at {A} entries at key a =
    let built : Option A → Option A = λ found.
      find (elim found [ none ↦ entries ++ (at, a) ∷ [] | some b ↦ update entries at a ]) key in
    elim (Option-cases (find entries at)) [
      | inl new ↦ ap built new ∙ find-push_at entries at key a new
      | inr (b, old) ↦ ap built old ∙ find-update_at entries at key a b old
    ]

pub find-erase_at :
    {A : Type 0} (entries : List (ℕ × A)) (at key : ℕ)
    → find (erase entries at) key ≡ (if key == at then none else find entries key)
find-erase_at [] at key = ground arith
find-erase_at (e ∷ entries) at key = ground (arith, find-erase_at entries at key)

-- No element twice.
abbrev pub AreDistinct : List ℕ → Type 0
AreDistinct [] = Unit
AreDistinct (x ∷ xs) = (mem x xs ≡ false) × AreDistinct xs

mem-remove : (x y : ℕ) (xs : List ℕ) → mem x xs ≡ false → mem x (remove y xs) ≡ false
mem-remove x y [] h = refl
mem-remove x y (z ∷ zs) h = ground (arith, mem-remove x y zs)

pub mem-add : (x y : ℕ) (xs : List ℕ) → mem x (add y xs) ≡ (mem x xs || y == x)
mem-add x y xs = ground arith

pub mem-of-remove : (x y : ℕ) (xs : List ℕ) → mem x (remove y xs) ≡ (mem x xs && not (y == x))
mem-of-remove x y [] = refl
mem-of-remove x y (z ∷ zs) = ground (arith, mem-of-remove x y zs)

pub add-AreDistinct : (x : ℕ) (xs : List ℕ) → AreDistinct xs → AreDistinct (add x xs)
add-AreDistinct x xs v = ground arith

pub remove-AreDistinct : (x : ℕ) (xs : List ℕ) → AreDistinct xs → AreDistinct (remove x xs)
remove-AreDistinct x [] v = tt
remove-AreDistinct x (y ∷ ys) v = ground (arith, remove-AreDistinct x ys v.1, mem-remove y x ys v.0)

-- A property of every value of a map.
abbrev pub Every : {A : Type 0} → (A → Type 0) → List (ℕ × A) → Type 0
Every P [] = Unit
Every P (e ∷ entries) = P e.1 × Every P entries

pub find-Every :
    {A : Type 0} (P : A → Type 0) (entries : List (ℕ × A)) (key : ℕ) (a : A)
    → Every P entries
    → find entries key ≡ some a
    → P a
find-Every P [] key a v h = absurd (none-ne-some a h)
find-Every P (e ∷ entries) key a v h = elim (Bool-cases (e.0 == key)) [
  | inl hit ↦
      let test = λ (b : Bool). if b then some e.1 else find entries key in
      subst P (some-injective e.1 a (sym (ap test hit) ∙ h)) v.0
  | inr miss ↦
      let test = λ (b : Bool). if b then some e.1 else find entries key in
      find-Every P entries key a v.1 (sym (ap test miss) ∙ h)
]

pub erase-Every :
    {A : Type 0} (P : A → Type 0) (entries : List (ℕ × A)) (key : ℕ)
    → Every P entries
    → Every P (erase entries key)
erase-Every P [] key v = tt
erase-Every P (e ∷ entries) key v = elim (Bool-cases (e.0 == key)) [
  | inl hit ↦ rw hit (erase-Every P entries key v.1)
  | inr miss ↦ rw miss (v.0, erase-Every P entries key v.1)
]

pub update-Every :
    {A : Type 0} (P : A → Type 0) (entries : List (ℕ × A)) (key : ℕ) (a : A)
    → Every P entries
    → P a
    → Every P (update entries key a)
update-Every P [] key a v p = tt
update-Every P (e ∷ entries) key a v p = elim (Bool-cases (e.0 == key)) [
  | inl hit ↦ rw hit (p, v.1)
  | inr miss ↦ rw miss (v.0, update-Every P entries key a v.1 p)
]

pub emplace-Every :
    {A : Type 0} (P : A → Type 0) (entries : List (ℕ × A)) (key : ℕ) (a : A)
    → Every P entries
    → P a
    → Every P (emplace entries key a)
emplace-Every P entries key a v p = elim (Option-cases (find entries key)) [
  | inl new ↦ rw (new, Every) (p, v)
  | inr (b, old) ↦ rw (old, Every) v
]
