-- ===== src/Repository/Flow/Holds.antt =====
-- What holds of the outcome of an action, error or not, with a rule for each step of a `do` block.
use walnut_billing.Prelude.{Bool, true, false, ◌≡◌, refl, if◌then◌else◌}
use walnut_billing.Repository.Error.{Result, ok, err}
use walnut_billing.Repository.Flow.{
  Flow, pure, raise, continue, ◌>>=◌, raise_if, from_result, modify,
}

module _ {S E A : Type 0} (Q : Result E A → S → Type 0) where
  -- `Q` of the result and the state after an action.
  abbrev pub Post : Result E A × S → Type 0
  Post (r, s) = Q r s

  -- What the first action of a sequence has to ensure.
  abbrev pub Then : {B : Type 0} → (B → Flow S E A) → Result E B → S → Type 0
  Then f (ok b) s = Post (f b s)
  Then f (err e) s = Q (err e) s

module _ {S E A : Type 0} (Q : Result E A → S → Type 0) where
  pub Post-continue :
      {B : Type 0} (r : Result E B × S) (f : B → Flow S E A)
      → Post (Then Q f) r
      → Post Q (continue r f)
  Post-continue (ok b, s) f h = h
  Post-continue (err e, s) f h = h

  pub Post-bind :
      {B : Type 0} (m : Flow S E B) (f : B → Flow S E A) (s : S)
      → Post (Then Q f) (m s)
      → Post Q ((m >>= f) s)
  unfolding ◌>>=◌
  Post-bind m f s h = Post-continue (m s) f h

  pub Post-pure : (a : A) (s : S) → Q (ok a) s → Post Q (pure a s)
  unfolding pure
  Post-pure a s h = h

  pub Post-raise : (e : E) (s : S) → Q (err e) s → Post Q (raise e s)
  unfolding raise
  Post-raise e s h = h

  pub Post-if :
      (b : Bool) (m n : Flow S E A) (s : S)
      → (b ≡ true → Post Q (m s))
      → (b ≡ false → Post Q (n s))
      → Post Q ((if b then m else n) s)
  Post-if true m n s h k = h refl
  Post-if false m n s h k = k refl

  pub Post-from_result :
      (q : S → Result E A) (s : S)
      → ((a : A) → q s ≡ ok a → Q (ok a) s)
      → ((e : E) → q s ≡ err e → Q (err e) s)
      → Post Q (from_result q s)
  unfolding from_result
  Post-from_result q s h k = by_result (q s) h k
    where
      by_result :
          (r : Result E A)
          → ((a : A) → r ≡ ok a → Q (ok a) s)
          → ((e : E) → r ≡ err e → Q (err e) s)
          → Q r s
      by_result (ok a) h k = h a refl
      by_result (err e) h k = k e refl

module _ {S E : Type 0} (Q : Result E (Unit {0}) → S → Type 0) where
  pub Post-raise_if :
      (c : Bool) (e : E) (s : S)
      → (c ≡ true → Q (err e) s)
      → (c ≡ false → Q (ok tt) s)
      → Post Q (raise_if c e s)
  unfolding raise_if
  Post-raise_if true e s h k = h refl
  Post-raise_if false e s h k = k refl

  pub Post-modify : (f : S → S) (s : S) → Q (ok tt) (f s) → Post Q (modify f s)
  unfolding modify
  Post-modify f s h = h
