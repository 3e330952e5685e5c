-- ===== src/Repository/Flow/Invariant.antt =====
-- What holds of the state after an action, error or not, with what holds of the value if there is
-- one, and a rule for each step of a `do` block.
use walnut_billing.Prelude.{Bool, true, false, ◌≡◌, refl, if◌then◌else◌}
use walnut_billing.Repository.Error.{Result, ok, err}
use walnut_billing.Repository.Flow.{Flow, continue, ◌>>=◌, raise_if, from_result}

module _ {S : Type 0} (I : S → Type 0) where
  -- `I` of the state, and `P` of a value.
  abbrev pub Keeps : {E A : Type 0} → (A → Type 0) → Result E A × S → Type 0
  Keeps P (ok a, s) = I s × P a
  Keeps P (err e, s) = I s

  pub Keeps-bind :
      {E A B : Type 0} (P : B → Type 0) (Q : A → Type 0) (m : Flow S E B) (f : B → Flow S E A)
      (s : S)
      → Keeps P (m s)
      → ((b : B) (t : S) → I t → P b → Keeps Q (f b t))
      → Keeps Q ((m >>= f) s)
  unfolding ◌>>=◌
  Keeps-bind P Q m f s h k = by_first (m s) h
    where
      by_first : (x : Result _ _ × S) → Keeps P x → Keeps Q (continue x f)
      by_first (ok b, t) (i, p) = k b t i p
      by_first (err e, t) i = i

  pub Keeps-guard :
      {E A : Type 0} (Q : A → Type 0) (c : Bool) (e : E) (f : Unit {0} → Flow S E A) (s : S)
      → I s
      → (c ≡ false → Keeps Q (f tt s))
      → Keeps Q ((raise_if c e >>= f) s)
  unfolding ◌>>=◌ raise_if
  Keeps-guard Q true e f s i h = i
  Keeps-guard Q false e f s i h = h refl

  pub Keeps-read :
      {E A B : Type 0} (Q : A → Type 0) (q : S → Result E B) (f : B → Flow S E A) (s : S)
      → I s
      → ((b : B) → q s ≡ ok b → Keeps Q (f b s))
      → Keeps Q ((from_result q >>= f) s)
  unfolding ◌>>=◌ from_result
  Keeps-read Q q f s i h = by_result (q s) h
    where
      by_result :
          (r : Result _ _) → ((b : _) → r ≡ ok b → Keeps Q (f b s)) → Keeps Q (continue (r, s) f)
      by_result (ok b) h = h b refl
      by_result (err e) h = i

  pub Keeps-unchanged : {E A : Type 0} (r : Result E A) (s : S) → I s → Keeps (λ _. Unit {0}) (r, s)
  Keeps-unchanged (ok a) s i = (i, tt)
  Keeps-unchanged (err e) s i = i

  pub Keeps-from_result :
      {E A : Type 0} (q : S → Result E A) (s : S) → I s → Keeps (λ _. Unit {0}) (from_result q s)
  unfolding from_result
  Keeps-from_result q s i = Keeps-unchanged (q s) s i

  pub Keeps-if :
      {E A : Type 0} (Q : A → Type 0) (b : Bool) (m n : Flow S E A) (s : S)
      → (b ≡ true → Keeps Q (m s))
      → (b ≡ false → Keeps Q (n s))
      → Keeps Q ((if b then m else n) s)
  Keeps-if Q true m n s h k = h refl
  Keeps-if Q false m n s h k = k refl

  -- What is kept of the state alone.
  pub Keeps-state : {E A : Type 0} (P : A → Type 0) (x : Result E A × S) → Keeps P x → I x.1
  Keeps-state P (ok a, s) (i, p) = i
  Keeps-state P (err e, s) i = i
