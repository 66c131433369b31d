-- ===== src/Protocol/Read.antt =====
-- The outcome of a read: `ReadResult` of protocol/binary_protocol.hpp together with the value that
-- the code stores through its reference argument and the cursor that it leaves.
pub mod Laws
use boutique.Common.{Option, none, some, Bytes}

pub data Read {ℓ} (A : Type ℓ) : Type ℓ where
  success : A → Bytes → Read A
  incomplete : Read A
  invalid : Read A

abbrev pub Reader {ℓ} : Type ℓ → Type ℓ
Reader A = Bytes → Read A

abbrev pub bind {ℓ κ} : {A : Type ℓ} {B : Type κ} → Read A → (A → Reader B) → Read B
bind (success a rest) f = f a rest
bind incomplete f = incomplete
bind invalid f = invalid

infixl 5 ◌>>=◌
abbrev pub ◌>>=◌ {ℓ κ} : {A : Type ℓ} {B : Type κ} → Reader A → (A → Reader B) → Reader B
p >>= f = λ c. bind (p c) f

abbrev pub pure {ℓ} : {A : Type ℓ} → A → Reader A
pure a c = success a c

abbrev pub reject {ℓ} : {A : Type ℓ} → Reader A
reject c = invalid

-- `if (!value) return ReadResult::INCOMPLETE;`
abbrev pub complete {ℓ} : {A : Type ℓ} → Option (A × Bytes) → Read A
complete none = incomplete
complete (some (a, rest)) = success a rest

abbrev pub require {ℓ} : {A : Type ℓ} → (Bytes → Option (A × Bytes)) → Reader A
require read c = complete (read c)
