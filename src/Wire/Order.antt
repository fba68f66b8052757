-- ===== src/Wire/Order.antt =====
-- `htons`, `htonl` and the bytes of a number in memory, lowest first.
use usn_hft_sim.Base.{ℕ, ◌+◌, ◌*◌, ◌/◌, ◌%◌, ◌^◌, ◌<◌, ◌≡◌, arith, List, [], ◌∷◌, get_or}

abbrev pub byte : ℕ → ℕ → ℕ
byte k x = x / 2 ^ (8 * k) % 2 ^ 8

-- `htons` and `ntohs`.
abbrev pub swap16 : ℕ → ℕ
swap16 x = byte 0 x * 2 ^ 8 + byte 1 x

-- `htonl` and `ntohl`.
abbrev pub swap32 : ℕ → ℕ
swap32 x = byte 0 x * 2 ^ 24 + byte 1 x * 2 ^ 16 + byte 2 x * 2 ^ 8 + byte 3 x

abbrev pub store16 : ℕ → List ℕ
store16 x = byte 0 x ∷ byte 1 x ∷ []

abbrev pub store32 : ℕ → List ℕ
store32 x = byte 0 x ∷ byte 1 x ∷ byte 2 x ∷ byte 3 x ∷ []

-- The numbers at an offset of the memory.
abbrev pub load16 : List ℕ → ℕ → ℕ
load16 bytes i = get_or bytes i 0 + 2 ^ 8 * get_or bytes (i + 1) 0

abbrev pub load32 : List ℕ → ℕ → ℕ
load32 bytes i =
    get_or bytes i 0
    + 2 ^ 8 * get_or bytes (i + 1) 0
    + 2 ^ 16 * get_or bytes (i + 2) 0
    + 2 ^ 24 * get_or bytes (i + 3) 0

-- All entries of a buffer are bytes.
abbrev pub AreBytes : List ℕ → Type 0
AreBytes [] = Unit
AreBytes (b ∷ bs) = (b < 2 ^ 8) × AreBytes bs

pub swap16_twice : (x : ℕ) → x < 2 ^ 16 → swap16 (swap16 x) ≡ x
swap16_twice x h = omega arith

pub swap32_twice : (x : ℕ) → x < 2 ^ 32 → swap32 (swap32 x) ≡ x
swap32_twice x h = omega arith

abbrev pub store64 : ℕ → List ℕ
store64 x =
    byte 0 x ∷ byte 1 x ∷ byte 2 x ∷ byte 3 x ∷ byte 4 x ∷ byte 5 x ∷ byte 6 x ∷ byte 7 x ∷ []

abbrev pub load64 : List ℕ → ℕ → ℕ
load64 bytes i = load32 bytes i + 2 ^ 32 * load32 bytes (i + 4)

-- A number is the sum of its bytes.
pub bytes32 :
    (x : ℕ) → x < 2 ^ 32 → byte 0 x + 2 ^ 8 * byte 1 x + 2 ^ 16 * byte 2 x + 2 ^ 24 * byte 3 x ≡ x
bytes32 x h = omega arith

pub bytes64 :
    (x : ℕ)
    → x < 2 ^ 64
    → byte 0 x
        + 2 ^ 8 * byte 1 x
        + 2 ^ 16 * byte 2 x
        + 2 ^ 24 * byte 3 x
        + 2 ^ 32 * (byte 4 x + 2 ^ 8 * byte 5 x + 2 ^ 16 * byte 6 x + 2 ^ 24 * byte 7 x)
      ≡ x
bytes64 x h = omega arith
