-- ===== src/Errors.antt =====
-- The error codes that the library returns, results that carry one, and runs that may also crash.
use fuse_example.Base.{◌≡◌, refl, ◌⊎◌, inl, inr}

pub data Errno : Type 0 where
  enomem enoent eio enobufs : Errno

pub data Result {ℓ} (A : Type ℓ) : Type ℓ where
  ok : A → Result A
  err : Errno → Result A

-- `fault` is an access outside an allocation or through a null pointer; `out_of_fuel` belongs to
-- the model, for loops that are not known to end.
pub data Run {ℓ} (A : Type ℓ) : Type ℓ where
  done : A → Run A
  fail : Errno → Run A
  fault : Run A
  out_of_fuel : Run A

infixl 5 ◌>>=◌ ◌>>◌
abbrev pub ◌>>=◌ {ℓ κ} : {A : Type ℓ} {B : Type κ} → Run A → (A → Run B) → Run B
done a >>= f = f a
fail e >>= f = fail e
fault >>= f = fault
out_of_fuel >>= f = out_of_fuel

abbrev pub ◌>>◌ {ℓ κ} : {A : Type ℓ} {B : Type κ} → Run A → Run B → Run B
m >> n = m >>= λ _. n

pub Result-cases {ℓ} :
    {A : Type ℓ} (r : Result A) → ((e : Errno) × (r ≡ err e)) ⊎ ((a : A) × (r ≡ ok a))
Result-cases (err e) = inl (e, refl)
Result-cases (ok a) = inr (a, refl)
