-- ===== src/Base/Int.antt =====
-- Signed 64-bit integers: the values of an `i64`, and the casts from and to `u64`.
use Prim.Native.Nat.{ℕ, suc, ◌-◌, ◌/◌, ◌<◌}
use mathlib.Core.Path.{◌≡◌}
use native.Mathlib.Omega.{arith}
use arfw.Base.Tests.{ltb, if◌then◌else◌}
use arfw.Base.Words.{u64_mod, i64_bound}

-- `negsuc n` is -(n + 1).
pub data ℤ : Type 0 where
  pos : ℕ → ℤ
  negsuc : ℕ → ℤ

-- `x as i64` of a `u64`
unfoldable pub to_i64 : ℕ → ℤ
to_i64 x = if ltb x i64_bound then pos x else negsuc (u64_mod - x - 1)

-- `n as u64` of an `i64`
unfoldable pub to_u64 : ℤ → ℕ
to_u64 (pos n) = n
to_u64 (negsuc n) = u64_mod - 1 - n

-- `/` of an `i64` by a positive number: it rounds towards zero.
unfoldable pub quot : ℤ → ℕ → ℤ
quot (pos n) k = pos (n / k)
quot (negsuc n) k = if ltb (suc n) k then pos 0 else negsuc (suc n / k - 1)

pub to_i64-eq_of_lt : (x : ℕ) → x < i64_bound → to_i64 x ≡ pos x
unfolding to_i64
to_i64-eq_of_lt x h = ground arith
