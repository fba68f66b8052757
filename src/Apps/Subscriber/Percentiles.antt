-- ===== src/Apps/Subscriber/Percentiles.antt =====
-- The order of the percentiles in a report.
use usn_hft_sim.Base.{
  ℕ, zero, suc, ◌-◌, ◌≤◌, ◌<◌, ◌≡◌, refl, sym, inl, inr, arith, Bool-cases, List, [], ◌∷◌, length,
  get_or, leb,
}
use mathlib.Core.Path.{subst}
use usn_hft_sim.Udp.Feedback.{Feedback}
use usn_hft_sim.Apps.Subscriber.Report.{insert_sorted, sort, percentile_us, Indices, report_of}

abbrev AllFrom : ℕ → List ℕ → Type 0
AllFrom low [] = Unit
AllFrom low (x ∷ xs) = (low ≤ x) × AllFrom low xs

abbrev pub AllTo : ℕ → List ℕ → Type 0
AllTo high [] = Unit
AllTo high (x ∷ xs) = (x ≤ high) × AllTo high xs

abbrev IsSorted : List ℕ → Type 0
IsSorted [] = Unit
IsSorted (x ∷ xs) = AllFrom x xs × IsSorted xs

lower-AllFrom : (low x : ℕ) (ys : List ℕ) → low ≤ x → AllFrom x ys → AllFrom low ys
lower-AllFrom low x [] h v = tt
lower-AllFrom low x (y ∷ ys) h v = (omega arith, lower-AllFrom low x ys h v.1)

insert-AllFrom :
    (low x : ℕ) (ys : List ℕ) → low ≤ x → AllFrom low ys → AllFrom low (insert_sorted x ys)
unfolding insert_sorted
insert-AllFrom low x [] h v = (h, tt)
insert-AllFrom low x (y ∷ ys) h v = elim (Bool-cases (leb x y)) [
  | inl here ↦ rw here (h, v)
  | inr later ↦ rw later (v.0, insert-AllFrom low x ys h v.1)
]

insert-IsSorted : (x : ℕ) (ys : List ℕ) → IsSorted ys → IsSorted (insert_sorted x ys)
unfolding insert_sorted
insert-IsSorted x [] v = (tt, tt)
insert-IsSorted x (y ∷ ys) v = elim (Bool-cases (leb x y)) [
  | inl here ↦ let low : x ≤ y = ground arith in rw here ((low, lower-AllFrom x y ys low v.0), v)
  | inr later ↦ rw later (insert-AllFrom y x ys (ground arith) v.0, insert-IsSorted x ys v.1)
]

sort-IsSorted : (xs : List ℕ) → IsSorted (sort xs)
unfolding sort
sort-IsSorted [] = tt
sort-IsSorted (x ∷ xs) = insert-IsSorted x (sort xs) (sort-IsSorted xs)

length-insert : (x : ℕ) (ys : List ℕ) → length (insert_sorted x ys) ≡ suc (length ys)
unfolding insert_sorted
length-insert x [] = refl
length-insert x (y ∷ ys) = ground (arith, length-insert x ys)

length-sort : (xs : List ℕ) → length (sort xs) ≡ length xs
unfolding sort
length-sort [] = refl
length-sort (x ∷ xs) = omega (arith, length-insert x (sort xs), length-sort xs)

-- What was in the list before an insertion is below what bounds it afterwards.
before-AllTo :
    (high x : ℕ) (ys : List ℕ) → AllTo high (insert_sorted x ys) → (x ≤ high) × AllTo high ys
unfolding insert_sorted
before-AllTo high x [] v = v
before-AllTo high x (y ∷ ys) v = elim (Bool-cases (leb x y)) [
  | inl here ↦ rw here at v
  | inr later ↦
      let w = rw later at v in let (low, rest) = before-AllTo high x ys w.1 in (low, (w.0, rest))
]

unsorted-AllTo : (high : ℕ) (xs : List ℕ) → AllTo high (sort xs) → AllTo high xs
unfolding sort
unsorted-AllTo high [] v = tt
unsorted-AllTo high (x ∷ xs) v =
    let (low, rest) = before-AllTo high x (sort xs) v in (low, unsorted-AllTo high xs rest)

from_at : (low k : ℕ) (xs : List ℕ) → AllFrom low xs → k < length xs → low ≤ get_or xs k 0
from_at low k [] v h = absurd (omega arith)
from_at low zero (x ∷ xs) v h = v.0
from_at low (suc k) (x ∷ xs) v h = from_at low k xs v.1 (omega arith)

sorted_at :
    (i k : ℕ) (xs : List ℕ) → IsSorted xs → i ≤ k → k < length xs → get_or xs i 0 ≤ get_or xs k 0
sorted_at i k [] v le h = absurd (omega arith)
sorted_at zero zero (x ∷ xs) v le h = omega arith
sorted_at zero (suc k) (x ∷ xs) v le h = from_at x k xs v.0 (omega arith)
sorted_at (suc i) zero (x ∷ xs) v le h = absurd (omega arith)
sorted_at (suc i) (suc k) (x ∷ xs) v le h = sorted_at i k xs v.1 (omega arith) (omega arith)

higher-AllTo : (low high : ℕ) (xs : List ℕ) → low ≤ high → AllTo low xs → AllTo high xs
higher-AllTo low high [] h v = tt
higher-AllTo low high (x ∷ xs) h v = (omega arith, higher-AllTo low high xs h v.1)

last-AllTo :
    (x : ℕ) (xs : List ℕ) → IsSorted (x ∷ xs) → AllTo (get_or (x ∷ xs) (length xs) 0) (x ∷ xs)
last-AllTo x [] v = (omega arith, tt)
last-AllTo x (y ∷ xs) v =
    (sorted_at 0 (suc (length xs)) (x ∷ y ∷ xs) v (omega arith) (omega arith), last-AllTo y xs v.1)

sorted_last : (ys : List ℕ) → IsSorted ys → 0 < length ys → AllTo (get_or ys (length ys - 1) 0) ys
sorted_last [] v h = absurd (omega arith)
sorted_last (y ∷ ys) v h =
    let same : length ys ≡ length (y ∷ ys) - 1 = omega arith in
    subst (λ (k : ℕ). AllTo (get_or (y ∷ ys) k 0) (y ∷ ys)) same (last-AllTo y ys v)

-- With some samples, and indices in their order up to the last, the percentiles of a report are in
-- order, and no sample is higher than the last of them.
pub percentiles_in_order :
    (i : Indices) (id : ℕ) (f : Feedback) (x : ℕ) (xs : List ℕ)
    → i.p50 (length xs) ≤ i.p99 (length xs)
    → i.p99 (length xs) ≤ i.p999 (length xs)
    → i.p999 (length xs) ≤ length xs
    → let r = report_of i id f (x ∷ xs) in
      (r.latency_p50_us ≤ r.latency_p99_us)
      × (r.latency_p99_us ≤ r.latency_p999_us)
      × (r.latency_p999_us ≤ r.latency_max_us)
      × AllTo r.latency_max_us (x ∷ xs)
unfolding report_of percentile_us
percentiles_in_order i id f x xs h1 h2 h3 =
    let v : IsSorted (sort (x ∷ xs)) = sort-IsSorted (x ∷ xs) in
    let size : length (sort (x ∷ xs)) ≡ suc (length xs) = length-sort (x ∷ xs) in
    let n : length (x ∷ xs) - 1 ≡ length xs = omega arith in
    let sorted : List ℕ = sort (x ∷ xs) in
    let m : ℕ = length (x ∷ xs) - 1 in
    let h1' : i.p50 m ≤ i.p99 m = subst (λ (k : ℕ). i.p50 k ≤ i.p99 k) (sym n) h1 in
    let h2' : i.p99 m ≤ i.p999 m = subst (λ (k : ℕ). i.p99 k ≤ i.p999 k) (sym n) h2 in
    let h3' : i.p999 m ≤ m = subst (λ (k : ℕ). i.p999 k ≤ k) (sym n) h3 in
    let top : AllTo (get_or sorted (length sorted - 1) 0) (x ∷ xs) =
      unsorted-AllTo (get_or sorted (length sorted - 1) 0) (x ∷ xs)
        (sorted_last sorted v (omega arith)) in
    let where_last : length sorted - 1 ≡ m = omega arith in
    (
      sorted_at (i.p50 m) (i.p99 m) sorted v h1' (omega arith),
      sorted_at (i.p99 m) (i.p999 m) sorted v h2' (omega arith),
      sorted_at (i.p999 m) m sorted v h3' (omega arith),
      subst (λ (k : ℕ). AllTo (get_or sorted k 0) (x ∷ xs)) where_last top,
    )
