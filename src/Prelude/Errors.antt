-- ===== src/Prelude/Errors.antt =====
-- src/lib/utils.py: `AppError`, and computations that may raise it or another exception.
use Prim.Native.Nat.{ℕ}
use Prim.Native.String.{String}
use mathlib.Core.Path.{◌≡◌, refl}
use mathlib.Core.Logic.{◌⊎◌, inl, inr}
use mathlib.Core.Bool.{Bool, true, false}
use mathlib.Core.List.{List, [], ◌∷◌}

-- An f-string: its literal parts and what is put between them.
pub data Piece : Type 0 where
  part : String → Piece
  shown : ℕ → Piece

abbrev pub Message : Type 0
Message = List Piece

pub record AppError : Type 0 where
  pub code : String
  pub message : Message
  pub status_code : ℕ

-- An exception: an AppError, or another one with its `str(exc)`.
pub data Exception : Type 0 where
  app_error : AppError → Exception
  other : Message → Exception

pub data Result {ℓ} (A : Type ℓ) : Type ℓ where
  ok : A → Result A
  err : Exception → Result A

-- What comes after a computation is left out if that raises.
infixl 10 ◌>>=◌ ◌>>◌
abbrev pub ◌>>=◌ {ℓ ℓ'} :
    {Before : Type ℓ} {After : Type ℓ'} → Result Before → (Before → Result After) → Result After
ok value >>= next = next value
err exc >>= next = err exc

-- raise AppError(code, message, status_code)
abbrev pub raise {ℓ} : {A : Type ℓ} → String → String → ℕ → Result A
raise code message status_code =
    err (app_error (record { code = code; message = part message ∷ []; status_code = status_code }))

-- The same, with an f-string.
abbrev pub raise_f {ℓ} : {A : Type ℓ} → String → Message → ℕ → Result A
raise_f code message status_code =
    err (app_error (record { code = code; message = message; status_code = status_code }))

-- `if not test: raise ...`
abbrev pub guard : Bool → Result (Unit {0}) → Result (Unit {0})
guard true failure = ok tt
guard false failure = failure

abbrev pub ◌>>◌ {ℓ} : {After : Type ℓ} → Result (Unit {0}) → Result After → Result After
first >> after = first >>= λ _. after

-- str(exc): an AppError is raised with its message as the only argument.
pub str_exc : Exception → Message
str_exc (app_error e) = e.message
str_exc (other m) = m

pub Result-cases : (r : Result (Unit {0})) → (r ≡ ok tt) ⊎ ((x : Exception) × (r ≡ err x))
Result-cases (ok tt) = inl refl
Result-cases (err x) = inr (x, refl)

abbrev pub is_ok {ℓ} : {A : Type ℓ} → Result A → Bool
is_ok (ok a) = true
is_ok (err x) = false

pub Result-split :
    {A : Type 0} (r : Result A) → ((a : A) × (r ≡ ok a)) ⊎ ((x : Exception) × (r ≡ err x))
Result-split (ok a) = inl (a, refl)
Result-split (err x) = inr (x, refl)
