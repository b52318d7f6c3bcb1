-- ===== src/Prelude/Bits.antt =====
-- `x & (2^k - 1)` is the remainder by 2^k, for every k.
use Prim.Native.Nat.{
  ℕ, zero, suc, ◌+◌, ◌-◌, ◌*◌, ◌/◌, ◌%◌, ◌^◌, ◌≤◌, ◌<◌, min, bit_and, digits, bit_and-bitwise,
}
use mathlib.Core.Path.{◌≡◌, ap, ◌∙◌}
use native.Mathlib.Omega.{arith}
use native.Mathlib.Nat.{
  add-mul-mod_self_right, div-add-mod', mod-eq_of_lt, mod-lt, pow-suc, one-le-pow,
}

-- The remainder by an even number, from the halves.
half_mod : (a m : ℕ) → 0 < m → a % (m * 2) ≡ a / 2 % m * 2 + a % 2
half_mod a m h =
    let r : ℕ = a / 2 % m * 2 + a % 2 in
    let below : a / 2 % m < m = mod-lt (a / 2) h in
    let whole : a ≡ r + a / 2 / m * (m * 2) = omega (arith, div-add-mod' (a / 2) m) in
    ap (λ (t : ℕ). t % (m * 2)) whole
    ∙ add-mul-mod_self_right r (a / 2 / m) (m * 2)
    ∙ mod-eq_of_lt (omega arith)

digits_mask : (k n a : ℕ) → a ≤ n → digits (λ b. zero) min n a (2 ^ k - 1) ≡ a % 2 ^ k
digits_mask k zero zero h = omega (arith, one-le-pow k 2)
digits_mask k zero (suc a) h = absurd (omega arith)
digits_mask k (suc n) zero h = omega (arith, one-le-pow k 2)
digits_mask zero (suc n) (suc a) h = omega (arith, digits_mask zero n (suc a / 2) (omega arith))
digits_mask (suc k) (suc n) (suc a) h =
    let p : 1 ≤ 2 ^ k = one-le-pow k 2 (omega arith) in
    let e : (2 ^ suc k - 1) / 2 ≡ 2 ^ k - 1 = omega (arith, pow-suc 2 k) in
    let o : (2 ^ suc k - 1) % 2 ≡ 1 = omega (arith, pow-suc 2 k) in
    ap
      (λ (b : ℕ).
        digits (λ b. zero) min n (suc a / 2) b * 2 + min (suc a % 2) ((2 ^ suc k - 1) % 2))
      e
    ∙ omega (
      arith,
      digits_mask k n (suc a / 2) (omega arith),
      half_mod (suc a) (2 ^ k) (omega arith),
      ap (λ (m : ℕ). suc a % m) (pow-suc 2 k),
    )

pub bit_and_mask : (k a : ℕ) → bit_and a (2 ^ k - 1) ≡ a % 2 ^ k
bit_and_mask k a = bit_and-bitwise a (2 ^ k - 1) ∙ digits_mask k a a (omega arith)
