-- ===== src/Fault.antt =====
-- Go's error values, as far as the program tells them apart, and the outcome of a call.
pub mod Pure
use kubernetes_local_volume.Base.{String, Option, none, some, ◌≡◌, ◌⊎◌, inl, inr, refl}

-- The gRPC status codes that the driver answers with (google.golang.org/grpc/codes).
pub data Code : Type 0 where
  internal_code invalid_argument not_found_code unavailable unimplemented : Code

pub data Error : Type 0 where
  -- errors.New, fmt.Errorf, and errors of which only the text is used.
  plain : String → Error
  -- status.Error of google.golang.org/grpc/status.
  status : Code → String → Error
  -- What os.IsNotExist recognises.
  missing_file : String → Error
  -- What IsNotFound of k8s.io/apimachinery/pkg/api/errors recognises.
  missing_object : String → Error
  -- exec.ErrNotFound.
  missing_executable : String → Error
  -- strconv's error about a text that is no number in range.
  not_a_number : String → Error

-- The answer of a call of other code that returns a value and an error.
pub data Reply {ℓ} (A : Type ℓ) : Type ℓ where
  got : A → Reply A
  refused : Error → Reply A

-- How a function of the program ends: with a value, with an error that is not nil, or in a panic.
pub data Outcome {ℓ} (A : Type ℓ) : Type ℓ where
  ok : A → Outcome A
  fail : Error → Outcome A
  panic : Outcome A

-- `*p`, which panics at nil.
abbrev pub deref {ℓ} : {A : Type ℓ} → Option A → Outcome A
deref none = panic
deref (some a) = ok a

abbrev pub outcome_of {ℓ} : {A : Type ℓ} → Reply A → Outcome A
outcome_of (got a) = ok a
outcome_of (refused e) = fail e

pub ok-injective {ℓ} : {A : Type ℓ} {a b : A} → ok a ≡ ok b → a ≡ b
ok-injective h = cc

pub Reply-cases :
    {A : Type 0} (r : Reply A) → ((a : A) × (r ≡ got a)) ⊎ ((e : Error) × (r ≡ refused e))
Reply-cases (got a) = inl (a, refl)
Reply-cases (refused e) = inr (e, refl)
