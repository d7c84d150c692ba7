-- ===== src/Prelude/Doubling.antt =====
-- A number that is doubled again and again under a limit.
use Prim.Native.Nat.{ℕ, zero, suc, ◌+◌, ◌*◌, ◌^◌, ◌≤◌, min}
use mathlib.Core.Path.{◌≡◌}
use native.Mathlib.Nat.{pow-suc}
use native.Mathlib.Omega.{arith}

pub one-le-pow : (k : ℕ) → 1 ≤ 2 ^ k
one-le-pow zero = omega arith
one-le-pow (suc k) = omega (arith, one-le-pow k, pow-suc 2 k)

-- once the double has passed the limit, so have all further ones
pub capped : (k d m : ℕ) → m ≤ d + d → min (d * 2 ^ suc k) m ≡ m
capped k d m h = grind (arith, pow-suc 2 k, one-le-pow k)

pub regroup : (k d m : ℕ) → min ((d + d) * 2 ^ k) m ≡ min (d * 2 ^ suc k) m
regroup k d m = rw (pow-suc 2 k) (omega arith)
