-- ===== src/Repository/Flow.antt =====
-- Go's calls as actions over a state of a component's own, with its own errors: what
-- Repository/Monad is for the tables of the wallet. The state stays changed after an error.
pub mod Holds
pub mod Success
pub mod Invariant
use walnut_billing.Prelude.{Bool, if◌then◌else◌}
use walnut_billing.Repository.Error.{
  GormError, Error, Result, ok, err, is_not_found, map_gorm_not_found,
}

abbrev pub Flow : Type 0 → Type 0 → Type 0 → Type 0
Flow S E A = S → Result E A × S

module _ {S E : Type 0} where
  unfoldable pub pure : {A : Type 0} → A → Flow S E A
  pure a s = (ok a, s)

  unfoldable pub raise : {A : Type 0} → E → Flow S E A
  raise e s = (err e, s)

  abbrev pub continue : {A B : Type 0} → Result E A × S → (A → Flow S E B) → Result E B × S
  continue (ok a, s) f = f a s
  continue (err e, s) f = (err e, s)

  -- Shut, so that rules on a `do` block see its steps.
  infixl 5 ◌>>=◌ ◌>>◌
  unfoldable pub ◌>>=◌ : {A B : Type 0} → Flow S E A → (A → Flow S E B) → Flow S E B
  ◌>>=◌ m f s = continue (m s) f

  abbrev pub ◌>>◌ : {A B : Type 0} → Flow S E A → Flow S E B → Flow S E B
  m >> k = m >>= λ _. k

  -- `if cond { return err }`
  unfoldable pub raise_if : Bool → E → Flow S E (Unit {0})
  raise_if c e s = (if c then err e else ok tt, s)

  -- A result that does not change the state.
  unfoldable pub from_result : {A : Type 0} → (S → Result E A) → Flow S E A
  from_result q s = (q s, s)

  -- A change of the state that cannot fail.
  unfoldable pub modify : (S → S) → Flow S E (Unit {0})
  modify f s = (ok tt, f s)

-- The error of a read, through `mapGormNotFound`.
unfoldable pub mapped : {A : Type 0} → Result GormError A → Result Error A
mapped (ok a) = ok a
mapped (err e) = err (map_gorm_not_found e)
