-- ===== src/Base/Bytes.antt =====
-- `u64::to_le_bytes` and `u64::from_le_bytes`, at every width in bytes.
use Prim.Native.Nat.{ℕ, zero, suc, ◌+◌, ◌*◌, ◌/◌, ◌%◌, ◌^◌, ◌<◌}
use mathlib.Core.Path.{◌≡◌, refl, ap}
use mathlib.Core.List.{List, [], ◌∷◌, ◌++◌}
use native.Mathlib.Nat.{pow-suc}
use native.Mathlib.Omega.{arith}
use proof_job_zk.Base.Lists.{length, All, replicate}

unfoldable pub from_le_bytes : List ℕ → ℕ
from_le_bytes [] = 0
from_le_bytes (b ∷ bs) = b + 256 * from_le_bytes bs

-- The `k` low bytes.
unfoldable pub to_le_bytes : ℕ → ℕ → List ℕ
to_le_bytes zero n = []
to_le_bytes (suc k) n = (n % 256) ∷ to_le_bytes k (n / 256)

pub length-to_le_bytes : (k n : ℕ) → length (to_le_bytes k n) ≡ k
unfolding to_le_bytes
length-to_le_bytes zero n = refl
length-to_le_bytes (suc k) n = ap suc (length-to_le_bytes k (n / 256))

pub to_le_bytes-byte : (k n : ℕ) → All (λ b. b < 256) (to_le_bytes k n)
unfolding to_le_bytes
to_le_bytes-byte zero n = tt
to_le_bytes-byte (suc k) n = (omega arith, to_le_bytes-byte k (n / 256))

-- Reading back gives the number modulo the width.
pub from_le_bytes-to_le_bytes : (k n : ℕ) → n < 256 ^ k → from_le_bytes (to_le_bytes k n) ≡ n
unfolding from_le_bytes to_le_bytes
from_le_bytes-to_le_bytes zero n h = omega arith
from_le_bytes-to_le_bytes (suc k) n h =
    omega (arith, from_le_bytes-to_le_bytes k (n / 256) (omega (arith, pow-suc 256 k)))

-- Zero bytes at the end change nothing.
pub from_le_bytes-zeros :
    (bs : List ℕ) (k : ℕ) → from_le_bytes (bs ++ replicate k 0) ≡ from_le_bytes bs
unfolding from_le_bytes
from_le_bytes-zeros [] zero = refl
from_le_bytes-zeros [] (suc k) = omega (arith, from_le_bytes-zeros [] k)
from_le_bytes-zeros (b ∷ bs) k = omega (arith, from_le_bytes-zeros bs k)
