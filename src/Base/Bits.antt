-- ===== src/Base/Bits.antt =====
-- `bit_and` with a mask of ones above some zeros, for the page mask of src/driver.rs.
use Prim.Native.Nat.{
  ℕ, zero, suc, ◌+◌, ◌-◌, ◌*◌, ◌/◌, ◌^◌, ◌≤◌, ◌<◌, min, bit_and, digits, bit_and-bitwise,
}
use mathlib.Core.Path.{◌≡◌, refl, ap}
use native.Mathlib.Nat.{pow-suc}
use native.Mathlib.Omega.{arith}

-- `k` ones above `z` zeros.
mask : ℕ → ℕ → ℕ
mask zero zero = 0
mask zero (suc k) = 1 + 2 * mask zero k
mask (suc z) k = 2 * mask z k

-- A number without its lowest `z` bits.
cleared : ℕ → ℕ → ℕ
cleared zero a = a
cleared (suc z) a = 2 * cleared z (a / 2)

cleared-zero : (z : ℕ) → cleared z 0 ≡ 0
unfolding cleared
cleared-zero zero = refl
cleared-zero (suc z) = omega (arith, cleared-zero z)

-- The recursion that defines `bit_and`, with any number of digits to go that the first number does not
-- exceed.
digits-mask :
    (z k n a : ℕ) → a ≤ n → a < 2 ^ (z + k) → digits (λ _. zero) min n a (mask z k) ≡ cleared z a
unfolding mask cleared
digits-mask z k zero zero small fits = omega (arith, cleared-zero z)
digits-mask z k (suc n) zero small fits = omega (arith, cleared-zero z)
digits-mask z k zero (suc a) small fits = absurd (omega arith)
digits-mask zero zero (suc n) (suc a) small fits = absurd (omega arith)
digits-mask zero (suc k) (suc n) (suc a) small fits =
    let rest : (1 + 2 * mask zero k) / 2 ≡ mask zero k = omega arith in
    let exponent : 2 ^ (zero + suc k) ≡ 2 ^ suc (zero + k) = ap (λ e. 2 ^ e) (omega arith) in
    let upper =
      digits-mask zero k n (suc a / 2) (omega arith)
        (omega (arith, exponent, pow-suc 2 (zero + k))) in
    omega (arith, ap (digits (λ _. zero) min n (suc a / 2)) rest, upper)
digits-mask (suc z) k (suc n) (suc a) small fits =
    let rest : 2 * mask z k / 2 ≡ mask z k = omega arith in
    let exponent : 2 ^ (suc z + k) ≡ 2 ^ suc (z + k) = ap (λ e. 2 ^ e) (omega arith) in
    let upper =
      digits-mask z k n (suc a / 2) (omega arith) (omega (arith, exponent, pow-suc 2 (z + k))) in
    omega (arith, ap (digits (λ _. zero) min n (suc a / 2)) rest, upper)

-- Clearing the lowest twelve bits of a 64-bit number.
pub bit_and-page : (a : ℕ) → a < 2 ^ 64 → bit_and a (2 ^ 64 - 4096) ≡ a / 4096 * 4096
unfolding mask cleared
bit_and-page a h =
    omega (arith, bit_and-bitwise a (2 ^ 64 - 4096), digits-mask 12 52 a a (omega arith) h)
