-- ===== src/Go/Error.antt =====
-- Errors as the agent builds them, and the outcome of a call: a result, an error or a panic.
use teleskop.Common.{String}

-- google.golang.org/grpc/codes, the codes that the agent names.
pub data Code : Type 0 where
  invalid_argument not_found internal unknown : Code

-- The two reasons of a strconv.NumError, and the two of encoding/hex.
pub data Reason : Type 0 where
  syntax range odd_length invalid_byte : Reason

-- A value of Go's type error. `external` is an error that code outside the repository returned;
-- `plain` is fmt.Errorf with no error among its arguments, `wrapped` is fmt.Errorf with %w, and
-- `status` and `status_text` are status.Errorf with and without an error printed into the text.
-- The texts are the formats' fixed parts.
pub data Error : Type 0 where
  external : String → Error
  convert : Reason → Error
  plain : String → Error
  wrapped : String → Error → Error
  status : Code → String → Error → Error
  status_text : Code → String → Error

-- The code that a gRPC client sees: an error that status.Errorf did not build is Unknown.
unfoldable pub code_of : Error → Code
code_of (external _) = unknown
code_of (convert _) = unknown
code_of (plain _) = unknown
code_of (wrapped _ _) = unknown
code_of (status c _ _) = c
code_of (status_text c _) = c

pub data Outcome {ℓ} (A : Type ℓ) : Type ℓ where
  ok : A → Outcome A
  err : Error → Outcome A
  panic : Outcome A

infixl 5 ◌>>=◌ ◌>>◌
abbrev pub ◌>>=◌ {ℓ κ} : {A : Type ℓ} {B : Type κ} → Outcome A → (A → Outcome B) → Outcome B
ok a >>= f = f a
err e >>= f = err e
panic >>= f = panic

abbrev pub ◌>>◌ {ℓ κ} : {A : Type ℓ} {B : Type κ} → Outcome A → Outcome B → Outcome B
m >> k = m >>= λ _. k

-- `if err != nil { return nil, wrap(err) }`.
abbrev pub or_else {ℓ} : {A : Type ℓ} → Outcome A → (Error → Error) → Outcome A
or_else (ok a) wrap = ok a
or_else (err e) wrap = err (wrap e)
or_else panic wrap = panic
