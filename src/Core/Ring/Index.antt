-- ===== src/Core/Ring/Index.antt =====
-- Positions of the ring and the packets between two of them.
use native.Mathlib.Nat.{mod-add-mod, mod-eq_of_lt, mod-eq-sub-mod, mod-lt, add-zero}
use native.Mathlib.Decide.{dec_lt}
use usn_hft_sim.Base.{
  ℕ, zero, suc, ◌+◌, ◌-◌, ◌%◌, ◌≤◌, ◌<◌, ◌≡◌, ◌≢◌, refl, ap, ap₂, ◌∙◌, sym, arith, List, [], ◌∷◌,
  ◌++◌, length, get_or, set, get_or-set_self, get_or-set_ne,
}
use usn_hft_sim.Core.Packet.{Packet, blank}

-- Two positions less than a capacity apart have different slots.
slots_differ : (c p d : ℕ) → 0 < d → d < c → (p + d) % c ≢ p % c
slots_differ c p d pos small =
    let r : ℕ = p % c in
    let bound : r < c = mod-lt p (omega arith) in
    elim (dec_lt (r + d) c) [
      | yes h ↦ omega (arith, mod-add-mod p c d, mod-eq_of_lt h)
      | no h ↦ omega (
        arith,
        mod-add-mod p c d,
        mod-eq-sub-mod {n = r + d} {m = c} (omega arith),
        mod-eq_of_lt {n = r + d - c} {m = c} (omega arith),
      )
    ]

pub mod_ne : (c p q : ℕ) → p < q → q < p + c → q % c ≢ p % c
mod_ne c p q h k e =
    let apart : p + (q - p) ≡ q = omega arith in
    slots_differ c p (q - p) (omega arith) (omega arith) (ap (λ (t : ℕ). t % c) apart ∙ e)

-- The `n` packets from position `p` on.
abbrev pub window : List Packet → ℕ → ℕ → ℕ → List Packet
window slots c p zero = []
window slots c p (suc n) = get_or slots (p % c) blank ∷ window slots c (p + 1) n

pub length-window : (slots : List Packet) (c p n : ℕ) → length (window slots c p n) ≡ n
length-window slots c p zero = refl
length-window slots c p (suc n) = ap suc (length-window slots c (p + 1) n)

-- A write to the slot of `q` is not seen from positions that `q` is not a capacity away from.
pub window-set_above :
    (slots : List Packet) (c p n q : ℕ) (x : Packet)
    → p + n ≤ q
    → q < p + c
    → window (set slots (q % c) x) c p n ≡ window slots c p n
window-set_above slots c p zero q x h k = refl
window-set_above slots c p (suc n) q x h k =
    ap₂ ◌∷◌ (get_or-set_ne slots (q % c) (p % c) x blank (mod_ne c p q (omega arith) k))
      (window-set_above slots c (p + 1) n q x (omega arith) (omega arith))

pub window-set_below :
    (slots : List Packet) (c p n q : ℕ) (x : Packet)
    → q < p
    → p + n ≤ q + c
    → window (set slots (q % c) x) c p n ≡ window slots c p n
window-set_below slots c p zero q x h k = refl
window-set_below slots c p (suc n) q x h k =
    ap₂ ◌∷◌
      (get_or-set_ne slots (q % c) (p % c) x blank (λ e. mod_ne c q p h (omega arith) (sym e)))
      (window-set_below slots c (p + 1) n q x (omega arith) (omega arith))

pub window-suc :
    (slots : List Packet) (c p n : ℕ)
    → window slots c p (suc n) ≡ window slots c p n ++ get_or slots ((p + n) % c) blank ∷ []
window-suc slots c p zero = rw add-zero
window-suc slots c p (suc n) =
    let shift : p + 1 + n ≡ p + suc n = omega arith in
    ap (λ l. get_or slots (p % c) blank ∷ l)
      (window-suc slots c (p + 1) n
        ∙ ap (λ k. window slots c (p + 1) n ++ get_or slots (k % c) blank ∷ []) shift)

-- Writing just past the window extends it.
pub window-push :
    (slots : List Packet) (c p n : ℕ) (x : Packet)
    → n < c
    → length slots ≡ c
    → window (set slots ((p + n) % c) x) c p (suc n) ≡ window slots c p n ++ x ∷ []
window-push slots c p n x h e =
    window-suc (set slots ((p + n) % c) x) c p n
    ∙ ap₂ (λ l y. l ++ y ∷ []) (window-set_above slots c p n (p + n) x (omega arith) (omega arith))
        (get_or-set_self slots ((p + n) % c) x blank
          (omega (arith, mod-lt (p + n) {m = c} (omega arith))))
