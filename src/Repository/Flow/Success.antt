-- ===== src/Repository/Flow/Success.antt =====
-- What holds when an action has returned no error, with a rule for each step of a `do` block.
use walnut_billing.Prelude.{Bool, true, false, ◌≡◌, refl, if◌then◌else◌}
use mathlib.Core.Path.{subst}
use walnut_billing.Repository.Error.{Result, ok, err}
use walnut_billing.Repository.Flow.{Flow, raise, continue, ◌>>=◌, raise_if, from_result}

module _ {S E A : Type 0} where
  -- `P` of the value and the state, unless there is an error.
  abbrev pub OnOk : (A → S → Type 0) → Result E A × S → Type 0
  OnOk P (ok a, s) = P a s
  OnOk P (err e, s) = Unit {0}

  pub OnOk-mono :
      (P Q : A → S → Type 0) (x : Result E A × S)
      → OnOk P x
      → ((a : A) (s : S) → P a s → Q a s)
      → OnOk Q x
  OnOk-mono P Q (ok a, s) h f = f a s h
  OnOk-mono P Q (err e, s) h f = tt

  -- The value that was returned.
  pub OnOk-value :
      (P : A → S → Type 0) (x : Result E A × S) (a : A) → OnOk P x → x.0 ≡ ok a → P a x.1
  OnOk-value P (ok b, s) a h e = let q : b ≡ a = cc in subst (λ c. P c s) q h
  OnOk-value P (err e, s) a h k = cc

  pub OnOk-raise : (P : A → S → Type 0) (e : E) (s : S) → OnOk P (raise e s)
  unfolding raise
  OnOk-raise P e s = tt

  pub OnOk-if :
      (P : A → S → Type 0) (b : Bool) (m n : Flow S E A) (s : S)
      → (b ≡ true → OnOk P (m s))
      → (b ≡ false → OnOk P (n s))
      → OnOk P ((if b then m else n) s)
  OnOk-if P true m n s h k = h refl
  OnOk-if P false m n s h k = k refl

  pub OnOk-from_result :
      (P : A → S → Type 0) (q : S → Result E A) (s : S)
      → ((a : A) → q s ≡ ok a → P a s)
      → OnOk P (from_result q s)
  unfolding from_result
  OnOk-from_result P q s h = by_result (q s) h
    where
      by_result : (r : Result E A) → ((a : A) → r ≡ ok a → P a s) → OnOk P (r, s)
      by_result (ok a) h = h a refl
      by_result (err e) h = tt

module _ {S E A B : Type 0} where
  pub OnOk-bind :
      (P : B → S → Type 0) (Q : A → S → Type 0) (m : Flow S E B) (f : B → Flow S E A) (s : S)
      → OnOk P (m s)
      → ((b : B) (s' : S) → P b s' → OnOk Q (f b s'))
      → OnOk Q ((m >>= f) s)
  unfolding ◌>>=◌
  OnOk-bind P Q m f s h k = by_first (m s) h
    where
      by_first : (x : Result E B × S) → OnOk P x → OnOk Q (continue x f)
      by_first (ok b, s') h = k b s' h
      by_first (err e, s') h = tt

module _ {S E A : Type 0} where
  -- A guard that was passed.
  pub OnOk-guard :
      (Q : A → S → Type 0) (c : Bool) (e : E) (f : Unit {0} → Flow S E A) (s : S)
      → (c ≡ false → OnOk Q (f tt s))
      → OnOk Q ((raise_if c e >>= f) s)
  unfolding ◌>>=◌ raise_if
  OnOk-guard Q true e f s h = tt
  OnOk-guard Q false e f s h = h refl

  -- A read that has a value.
  pub OnOk-read :
      {B : Type 0} (Q : A → S → Type 0) (q : S → Result E B) (f : B → Flow S E A) (s : S)
      → ((b : B) → q s ≡ ok b → OnOk Q (f b s))
      → OnOk Q ((from_result q >>= f) s)
  unfolding ◌>>=◌ from_result
  OnOk-read Q q f s h = by_result (q s) h
    where
      by_result :
          (r : Result E _) → ((b : _) → r ≡ ok b → OnOk Q (f b s)) → OnOk Q (continue (r, s) f)
      by_result (ok b) h = h b refl
      by_result (err e) h = tt
