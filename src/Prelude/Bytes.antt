-- ===== src/Prelude/Bytes.antt =====
-- Big-endian integers: Rust's `to_be_bytes` and `from_be_bytes`, and `put_uN` and `get_uN` of the
-- buffers. A byte is a number below 256.
use Prim.Native.Nat.{ℕ, zero, suc, ◌+◌, ◌*◌, ◌/◌, ◌%◌, ◌^◌, ◌<◌}
use mathlib.Core.Path.{◌≡◌, refl}
use mathlib.Core.List.{List, [], ◌∷◌, ◌++◌}
use native.Mathlib.Omega.{arith}
use native.Mathlib.Nat.{pow-suc}
use zet_mq.Prelude.Lists.{length, length-append}

-- The low `k` bytes of `n`, the highest first: what is above is cut off, as by `n as uN`.
unfoldable pub be_bytes : ℕ → ℕ → List ℕ
be_bytes zero n = []
be_bytes (suc k) n = be_bytes k (n / 256) ++ (n % 256) ∷ []

value_from : ℕ → List ℕ → ℕ
value_from acc [] = acc
value_from acc (b ∷ bs) = value_from (acc * 256 + b) bs

unfoldable pub be_value : List ℕ → ℕ
unfolding value_from
be_value bs = value_from 0 bs

pub length-be_bytes : (k n : ℕ) → length (be_bytes k n) ≡ k
unfolding be_bytes
length-be_bytes zero n = refl
length-be_bytes (suc k) n =
    omega
      (arith, length-append (be_bytes k (n / 256)) ((n % 256) ∷ []), length-be_bytes k (n / 256))

value_from-append :
    (acc : ℕ) (xs : List ℕ) (b : ℕ) → value_from acc (xs ++ b ∷ []) ≡ value_from acc xs * 256 + b
unfolding value_from
value_from-append acc [] b = refl
value_from-append acc (x ∷ xs) b = value_from-append (acc * 256 + x) xs b

-- A number of `k` bytes is read back.
pub be_value-be_bytes : (k n : ℕ) → n < 256 ^ k → be_value (be_bytes k n) ≡ n
unfolding be_bytes be_value
be_value-be_bytes zero n h = omega arith
be_value-be_bytes (suc k) n h = omega (
  arith,
  value_from-append 0 (be_bytes k (n / 256)) (n % 256),
  be_value-be_bytes k (n / 256) (omega (arith, pow-suc 256 k)),
)

abbrev pub IsByte : ℕ → Type 0
IsByte b = b < 256

abbrev pub All {ℓ κ} : {A : Type ℓ} → (A → Type κ) → List A → Type κ
All P [] = Unit
All P (x ∷ xs) = P x × All P xs
