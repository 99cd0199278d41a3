-- ===== src/Errors.antt =====
-- Fallible results, and the errors of crates/dma-libfabric-protocol/src/error.rs with the mapping
-- of libfabric's return codes in crates/dma-libfabric/src/error.rs. A message keeps what its
-- format string is filled with; the text that `fi_strerror` gives for a code is left out.
use Prim.Native.String.{String}
use vdma.Prelude.{ℕ, ◌≡◌, refl, ◌⊎◌, inl, inr, List, if◌then◌else◌}
use vdma.Prelude.Int.{ℤ, is_zero}

pub data Result {ℓ κ} (A : Type ℓ) (E : Type κ) : Type (ℓ ⊔ κ) where
  ok : A → Result A E
  err : E → Result A E

pub Result-cases {ℓ κ} :
    {A : Type ℓ} {E : Type κ} (r : Result A E) → ((a : A) × (r ≡ ok a)) ⊎ ((e : E) × (r ≡ err e))
Result-cases (ok a) = inl (a, refl)
Result-cases (err e) = inr (e, refl)

pub data Message : Type 0 where
  text : String → Message
  filled : String → List ℕ → Message
  coded : String → ℤ → Message

pub data DmaError : Type 0 where
  transfer : Message → DmaError
  fabric : Message → DmaError

unfoldable pub fabric_error : ℤ → String → DmaError
fabric_error code what = fabric (coded what code)

-- 0 is success; a negative code is an error number.
unfoldable pub check : ℤ → String → Result (Unit {0}) DmaError
unfolding fabric_error
check code what = if is_zero code then ok tt else err (fabric_error code what)
