-- ===== src/Prelude/Bytes.antt =====
-- Facts about every byte, by evaluation.
use Prim.Native.Nat.{ℕ, zero, suc, ◌<◌}
use mathlib.Core.Path.{◌≡◌}
use mathlib.Core.Bool.{Bool, true, ◌&&◌}
use native.Mathlib.Omega.{arith}

-- The test at every number under the limit, from the top down.
unfoldable pub all_below : ℕ → (ℕ → Bool) → Bool
all_below zero test = true
all_below (suc top) test = let rest = all_below top test in test top && rest

pub all_below_sound :
    (limit : ℕ) (test : ℕ → Bool) (byte : ℕ)
    → all_below limit test ≡ true
    → byte < limit
    → test byte ≡ true
unfolding all_below
all_below_sound zero test byte passed under = absurd (omega arith)
all_below_sound (suc top) test byte passed under =
    ground (arith, all_below_sound top test byte, passed, under)
