-- ===== src/Common/Amounts.antt =====
-- JavaScript numbers that hold an amount: exact decimals `digits / 10 ^ scale`. (DECIMAL columns
-- hold no other values; the error of binary floating point below a hundredth is not modelled.)
use Prim.Native.Nat.{ℕ, ◌+◌, ◌*◌, ◌/◌, ◌^◌}
use mathlib.Core.Path.{◌≡◌}
use native.Mathlib.Omega.{arith}

pub record Decimal : Type 0 where
  pub digits : ℕ
  pub scale : ℕ

-- `Math.round(Number(value) * 100)`: a half rounds up.
unfoldable pub to_cents : Decimal → ℕ
to_cents d = (d.digits * 200 + 10 ^ d.scale) / (2 * 10 ^ d.scale)

-- `cents / 100`
abbrev pub of_cents : ℕ → Decimal
of_cents c = record { digits = c; scale = 2 }

pub to_cents-of_cents : (c : ℕ) → to_cents (of_cents c) ≡ c
unfolding to_cents
to_cents-of_cents c = omega arith

-- `a + b` and `a * n`, exact.
unfoldable pub plus : Decimal → Decimal → Decimal
plus a b = record {
  digits = a.digits * 10 ^ b.scale + b.digits * 10 ^ a.scale;
  scale = a.scale + b.scale;
}

unfoldable pub times : Decimal → ℕ → Decimal
times a n = record { digits = a.digits * n; scale = a.scale }
