-- ===== src/Prelude/Order.antt =====
-- `<` on the native numbers is well founded.
use Prim.Native.Nat.{ℕ, zero, suc, ◌<◌}
use mathlib.Core.WellFounded.{Acc, WellFounded}
use native.Mathlib.Omega.{arith}

below-Acc : (bound n : ℕ) → n < bound → Acc ◌<◌ n
below-Acc zero n h = elim h [ ]
below-Acc (suc bound) n h = Acc.intro n (λ m small. below-Acc bound m (omega arith))

unfoldable pub lt_wf : WellFounded ◌<◌
unfolding below-Acc
lt_wf = record { apply = λ n. below-Acc (suc n) n (omega arith) }
