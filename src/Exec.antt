-- ===== src/Exec.antt =====
-- Methods that take `&mut self` and return a `ruc::Result`. What was written before an error stays
-- written, so the state comes back beside the error too. The errors are the messages of the
-- source; `missing` stands for a bare `d!()`, and
-- `panicked` for an `unwrap`, `pnk!` or `assert!` that fails.
use vsdb.Prelude.{Bool, true, false, Option, none, some, List, [], ◌∷◌}

pub data Error : Type 0 where
  missing branch_not_found base_branch_not_found target_branch_not_found : Error
  no_version version_already_exists branch_already_exists version_not_found : Error
  version_not_on_branch version_not_on_base_branch base_version_not_on_branch
        base_version_not_found :
      Error
  unable_to_merge lock_busy reserved_zero panicked : Error
  invalid_bytes length_mismatch incorrect_key_size invalid_key_size no_versions_found : Error

pub data Result {ℓ} (A : Type ℓ) : Type ℓ where
  ok : A → Result A
  err : Error → Result A

abbrev pub Exec {ℓ} : Type ℓ → Type ℓ → Type ℓ
Exec S A = S → Result A × S

module _ {ℓ} {S A : Type ℓ} where
  abbrev pub pure : A → Exec S A
  pure a s = (ok a, s)

  abbrev pub raise : Error → Exec S A
  raise e s = (err e, s)

  -- `o.c(d!(..))?`: the value, or the error.
  abbrev pub require : Option A → Error → Exec S A
  require (some a) e s = (ok a, s)
  require none e s = (err e, s)

  abbrev pub gets : (S → A) → Exec S A
  gets f s = (ok (f s), s)

module _ {ℓ} {S A B : Type ℓ} where
  abbrev pub resume : Result A → (A → Exec S B) → Exec S B
  resume (ok a) f s = f a s
  resume (err e) f s = (err e, s)

  infixl 10 ◌>>=◌ ◌>>◌
  abbrev pub ◌>>=◌ : Exec S A → (A → Exec S B) → Exec S B
  ◌>>=◌ m f s = let (r, s') = m s in resume r f s'

  abbrev pub ◌>>◌ : Exec S A → Exec S B → Exec S B
  m >> n = m >>= λ _. n

module _ {S : Type 0} where
  abbrev pub modify : (S → S) → Exec S Unit
  modify f s = (ok tt, f s)

  -- a guard with an early `return Err(..)`
  abbrev pub refuse_if : Bool → Error → Exec S Unit
  refuse_if true e s = (err e, s)
  refuse_if false e s = (ok tt, s)

  -- `for x in xs { .. }`, left by the first error
  abbrev pub for_each {ℓ} : {A : Type ℓ} → List A → (A → Exec S Unit) → Exec S Unit
  for_each [] f = pure tt
  for_each (x ∷ xs) f = f x >> for_each xs f
