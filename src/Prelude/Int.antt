-- ===== src/Prelude/Int.antt =====
-- Signed integers, as far as the program needs them: words read by `struct.unpack`, compared and scaled.
use Prim.Native.Nat.{ℕ, suc, ◌-◌, ◌<◌}
use mathlib.Core.Path.{◌≡◌}
use mathlib.Core.Bool.{Bool, false}
use native.Mathlib.Omega.{arith}
use socket_server.Prelude.Tests.{ltb, leb, ◌==◌, if◌then◌else◌}

-- `negsuc n` is -(n + 1).
pub data ℤ : Type 0 where
  pos : ℕ → ℤ
  negsuc : ℕ → ℤ

-- A 32-bit word in two's complement.
unfoldable pub to_signed : ℕ → ℤ
to_signed u = if ltb u 0x80000000 then pos u else negsuc (0xffffffff - u)

-- A 64-bit word in two's complement.
unfoldable pub to_signed_long : ℕ → ℤ
to_signed_long u = if ltb u 0x8000000000000000 then pos u else negsuc (0xffffffffffffffff - u)

abbrev pub pos_part : ℤ → ℕ
pos_part (pos n) = n
pos_part (negsuc n) = 0

abbrev pub neg_part : ℤ → ℕ
neg_part (pos n) = 0
neg_part (negsuc n) = suc n

-- a - b, as an integer.
abbrev pub sub_ℕ : ℕ → ℕ → ℤ
sub_ℕ a b = if leb b a then pos (a - b) else negsuc (b - a - 1)

-- `i == n`, `n < i` for a natural `n`.
abbrev pub eq_ℕ : ℤ → ℕ → Bool
eq_ℕ (pos m) n = m == n
eq_ℕ (negsuc m) n = false

abbrev pub ltb_ℕℤ : ℕ → ℤ → Bool
ltb_ℕℤ n (pos m) = ltb n m
ltb_ℕℤ n (negsuc m) = false

pub to_signed_pos : (u : ℕ) → u < 0x80000000 → to_signed u ≡ pos u
unfolding to_signed
to_signed_pos u h = ground arith
