-- ===== src/Base/Div.antt =====
-- Quotients.
use Prim.Native.Nat.{ℕ, ◌/◌, ◌≤◌, ◌<◌}
use mathlib.Core.Path.{◌≡◌}
use native.Mathlib.Omega.{arith}

pub div_mono : (x y d e : ℕ) → x ≤ y → 0 < d → d ≤ e → x / e ≤ y / d
div_mono x y d e h p q = grind arith

pub div_of_lt : (x e : ℕ) → x < e → x / e ≡ 0
div_of_lt x e h = grind arith
