-- ===== src/Base/Text.antt =====
-- Text as a list of bytes, and the conversions of C and C++ between numbers and text.
use Prim.Native.Nat.{ℕ, zero, suc, ◌+◌, ◌-◌, ◌*◌, ◌/◌, ◌%◌, ◌^◌, ◌≤◌, ◌<◌, min}
use Prim.Native.Char.{code}
use Prim.Native.String.{String}
use mathlib.Core.Path.{◌≡◌, refl, sym, ap, ◌∙◌}
use mathlib.Core.Logic.{inl, inr}
use mathlib.Core.Bool.{Bool, true, false, ◌&&◌, ◌||◌}
use mathlib.Core.List.{List, [], ◌∷◌, ◌++◌, append_assoc, append-nil}
use native.Mathlib.Omega.{arith}
use usn_hft_sim.Base.Tests.{ltb, leb, ◌==◌, if◌then◌else◌, Bool-cases}
use usn_hft_sim.Base.Ints.{ℤ, pos, negsuc, at_least_zero}

abbrev pub codes : String → List ℕ
codes String.[] = []
codes (String.◌∷◌ c s) = code c ∷ codes s

abbrev pub same : List ℕ → List ℕ → Bool
same [] [] = true
same [] (d ∷ t) = false
same (c ∷ s) [] = false
same (c ∷ s) (d ∷ t) = c == d && same s t

-- The decimal digits; one more round of fuel than the number is enough.
unfoldable pub digits : (fuel n : ℕ) → List ℕ
digits zero n = []
digits (suc fuel) n =
    let front = digits fuel (n / 10) in
    if ltb n 10 then (b'0' + n) ∷ [] else front ++ (b'0' + n % 10) ∷ []

-- `std::to_string`, and what `<<` prints, of a number that is not negative.
unfoldable pub to_string : ℕ → List ℕ
unfolding digits
to_string n = digits (suc n) n

abbrev pub is_digit : ℕ → Bool
is_digit c = leb b'0' c && leb c b'9'

abbrev pub is_space : ℕ → Bool
is_space c = c == 32 || (leb 9 c && leb c 13)

-- The number that the leading digits spell, behind `n`.
unfoldable pub scan : List ℕ → (n : ℕ) → ℕ
scan [] n = n
scan (c ∷ s) n = let rest = scan s (n * 10 + (c - b'0')) in if is_digit c then rest else n

unfoldable pub skip_spaces : List ℕ → List ℕ
skip_spaces [] = []
skip_spaces (c ∷ s) = let rest = skip_spaces s in if is_space c then rest else c ∷ s

-- An `int` with these 32 bits.
unfoldable pub int_of_bits : ℕ → ℤ
int_of_bits w = if ltb w (2 ^ 31) then pos w else negsuc (2 ^ 32 - 1 - w)

-- The sign, if there is one, and the digits behind it.
unfoldable pub signed : {A : Type 0} → (of_sign : Bool → ℕ → A) → List ℕ → A
unfolding scan
signed of_sign [] = of_sign false 0
signed of_sign (c ∷ s) =
    if c == b'-'
    then of_sign true (scan s 0)
    else (if c == b'+' then of_sign false (scan s 0) else of_sign false (scan (c ∷ s) 0))

-- `strtol`, which stops at the ends of `long`, and the conversion to `int`.
abbrev pub to_int : (negative : Bool) → ℕ → ℤ
to_int true n = int_of_bits ((2 ^ 32 - min n (2 ^ 63) % 2 ^ 32) % 2 ^ 32)
to_int false n = int_of_bits (min n (2 ^ 63 - 1) % 2 ^ 32)

-- `std::atoi` of glibc, the value of `strtol` as an `int`.
unfoldable pub atoi : List ℕ → ℤ
unfolding signed skip_spaces int_of_bits
atoi s = signed to_int (skip_spaces s)

abbrev pub to_u64 : (negative : Bool) → ℕ → ℕ
to_u64 true n = if ltb (2 ^ 64 - 1) n then 2 ^ 64 - 1 else (2 ^ 64 - n) % 2 ^ 64
to_u64 false n = min n (2 ^ 64 - 1)

-- `std::strtoull` with base 10.
unfoldable pub strtoull : List ℕ → ℕ
unfolding signed skip_spaces
strtoull s = signed to_u64 (skip_spaces s)

-- A digit is read behind the number before it.
scan_digit :
    (d n : ℕ) (rest : List ℕ) → d < 10 → scan ((b'0' + d) ∷ rest) n ≡ scan rest (n * 10 + d)
unfolding scan
scan_digit d n rest h =
    let test : is_digit (b'0' + d) ≡ true = ground arith in
    let value : b'0' + d - b'0' ≡ d = omega arith in rw (test, value) refl

scan-digits : (fuel n : ℕ) (rest : List ℕ) → n < fuel → scan (digits fuel n ++ rest) 0 ≡ scan rest n
unfolding digits
scan-digits zero n rest h = absurd (omega arith)
scan-digits (suc fuel) n rest h = elim (Bool-cases (ltb n 10)) [
  | inl one ↦
      let plain : 0 * 10 + n ≡ n = omega arith in
      rw one (scan_digit n 0 rest (ground arith) ∙ ap (scan rest) plain)
  | inr more ↦
      let d : ℕ = n % 10 in
      let whole : n / 10 * 10 + d ≡ n = omega arith in
      rw more (
        ap (λ (l : List ℕ). scan l 0) (append_assoc (digits fuel (n / 10)) ((b'0' + d) ∷ []) rest)
        ∙ scan-digits fuel (n / 10) ((b'0' + d) ∷ rest) (ground arith)
        ∙ scan_digit d (n / 10) rest (omega arith)
        ∙ ap (scan rest) whole)
]

-- The digits begin with one.
digits_head :
    (fuel n : ℕ) → n < fuel → (d : ℕ) × (s : List ℕ) × (digits fuel n ≡ (b'0' + d) ∷ s) × (d < 10)
unfolding digits
digits_head zero n h = absurd (omega arith)
digits_head (suc fuel) n h = elim (Bool-cases (ltb n 10)) [
  | inl one ↦ rw one (n, [], refl, ground arith)
  | inr more ↦
      let (d, s, head, small) = digits_head fuel (n / 10) (ground arith) in
      rw more
        (d, s ++ (b'0' + n % 10) ∷ [], ap (λ (l : List ℕ). l ++ (b'0' + n % 10) ∷ []) head, small)
]

signed_digit :
    {A : Type 0} (of_sign : Bool → ℕ → A) (d : ℕ) (s : List ℕ)
    → d < 10
    → signed of_sign (skip_spaces ((b'0' + d) ∷ s)) ≡ of_sign false (scan ((b'0' + d) ∷ s) 0)
unfolding signed skip_spaces
signed_digit of_sign d s h =
    let c : ℕ = b'0' + d in
    let plain : is_space c ≡ false = ground arith in
    let minus : (c == b'-') ≡ false = ground arith in
    let plus : (c == b'+') ≡ false = ground arith in rw (plain, minus, plus) refl

-- A number that is printed is read as itself, whatever follows that is no digit.
pub signed-to_string :
    {A : Type 0} (of_sign : Bool → ℕ → A) (n : ℕ) (rest : List ℕ)
    → signed of_sign (skip_spaces (to_string n ++ rest)) ≡ of_sign false (scan rest n)
unfolding to_string
signed-to_string of_sign n rest =
    let (d, s, head, small) = digits_head (suc n) n (omega arith) in
    ap (λ (l : List ℕ). signed of_sign (skip_spaces (l ++ rest))) head
    ∙ signed_digit of_sign d (s ++ rest) small
    ∙ ap (λ (l : List ℕ). of_sign false (scan (l ++ rest) 0)) (sym head)
    ∙ ap (of_sign false) (scan-digits (suc n) n rest (omega arith))

-- The number alone.
alone :
    {A : Type 0} (of_sign : Bool → ℕ → A) (n : ℕ)
    → signed of_sign (skip_spaces (to_string n)) ≡ of_sign false n
unfolding scan
alone of_sign n =
    ap (λ (l : List ℕ). signed of_sign (skip_spaces l)) (sym (append-nil (to_string n)))
    ∙ signed-to_string of_sign n []

pub atoi-to_string : (n : ℕ) → n < 2 ^ 31 → atoi (to_string n) ≡ pos n
unfolding atoi
atoi-to_string n h = alone to_int n ∙ ground arith

pub strtoull-to_string : (n : ℕ) → n < 2 ^ 64 → strtoull (to_string n) ≡ n
unfolding strtoull
strtoull-to_string n h = alone to_u64 n ∙ omega arith

int_of_bits-lt : (w : ℕ) → at_least_zero (int_of_bits w) < 2 ^ 31
unfolding int_of_bits
int_of_bits-lt w = ground arith

to_int-lt : (negative : Bool) (n : ℕ) → at_least_zero (to_int negative n) < 2 ^ 31
to_int-lt true n = int_of_bits-lt _
to_int-lt false n = int_of_bits-lt _

signed-lt : (s : List ℕ) → at_least_zero (signed to_int s) < 2 ^ 31
unfolding signed
signed-lt [] = to_int-lt false 0
signed-lt (c ∷ s) =
    ground (
      arith,
      to_int-lt true (scan s 0),
      to_int-lt false (scan s 0),
      to_int-lt false (scan (c ∷ s) 0),
    )

-- An `int` that is not negative is below 2 ^ 31.
pub atoi-lt : (s : List ℕ) → at_least_zero (atoi s) < 2 ^ 31
unfolding atoi
atoi-lt s = signed-lt (skip_spaces s)

abbrev pub All : (ℕ → Type 0) → List ℕ → Type 0
All P [] = Unit
All P (c ∷ s) = P c × All P s

All-append : (P : ℕ → Type 0) (s t : List ℕ) → All P s → All P t → All P (s ++ t)
All-append P [] t v w = w
All-append P (c ∷ s) t v w = (v.0, All-append P s t v.1 w)

abbrev pub IsDigit : ℕ → Type 0
IsDigit c = (b'0' ≤ c) × (c ≤ b'9')

digits-AreDigits : (fuel n : ℕ) → All IsDigit (digits fuel n)
unfolding digits
digits-AreDigits zero n = tt
digits-AreDigits (suc fuel) n = elim (Bool-cases (ltb n 10)) [
  | inl one ↦ rw one ((omega arith, ground arith), tt)
  | inr more ↦ rw more (
      All-append IsDigit (digits fuel (n / 10)) ((b'0' + n % 10) ∷ [])
        (digits-AreDigits fuel (n / 10)) ((omega arith, omega arith), tt))
]

pub to_string-AreDigits : (n : ℕ) → All IsDigit (to_string n)
unfolding to_string
to_string-AreDigits n = digits-AreDigits (suc n) n
