-- ===== src/Repository/Ensures.antt =====
-- What holds after an action that returns no error, with a rule for each step of a `do` block.
use Prim.Native.String.{◌++◌}
use walnut_billing.Prelude.{
  suc, String, ◌≡◌, refl, Bool, true, false, inl, inr, Option-cases, if◌then◌else◌,
}
use walnut_billing.Domain.{Time}
use walnut_billing.Repository.Error.{
  GormError, record_not_found, failed, map_gorm_not_found, Error, database, is_not_found, Result,
  ok, err,
}
use walnut_billing.Repository.World.{Store, World, Env}
use walnut_billing.Repository.Monad.{
  Action, pure, ◌>>=◌, raise_if, if_found, not_found_as, from_gorm, from_gorm_read, read, read_all,
  write, time_now, generate_entity_id,
}

-- `Q` of the value and the world after a run, if it ended without an error.
unfoldable pub Ensures : {A : Type 0} → (A → World → Type 0) → Result Error A × World → Type 0
Ensures Q (ok a, w) = Q a w
Ensures Q (err e, w) = Unit

module _ {A : Type 0} (Q : A → World → Type 0) where
  pub Ensures-mono :
      (P : A → World → Type 0) (r : Result Error A × World)
      → ((a : A) (w : World) → P a w → Q a w)
      → Ensures P r
      → Ensures Q r
  unfolding Ensures
  Ensures-mono P (ok a, w) h p = h a w p
  Ensures-mono P (err e, w) h p = tt

  pub Ensures-and :
      (P : A → World → Type 0) (r : Result Error A × World)
      → Ensures P r
      → Ensures Q r
      → Ensures (λ a w. P a w × Q a w) r
  unfolding Ensures
  Ensures-and P (ok a, w) p q = (p, q)
  Ensures-and P (err e, w) p q = tt

  pub Ensures-pure : (a : A) (w : World) → Q a w → Ensures Q (pure a w)
  unfolding Ensures pure
  Ensures-pure a w h = h

  pub Ensures-bind :
      {B : Type 0} (m : Action B) (f : B → Action A) (w : World)
      → Ensures (λ b w'. Ensures Q (f b w')) (m w)
      → Ensures Q ((m >>= f) w)
  unfolding ◌>>=◌ Ensures
  Ensures-bind m f w = step (m w)
    where
      step :
          (r : Result Error _ × World)
          → Ensures (λ b w'. Ensures Q (f b w')) r
          → Ensures Q (let (x, w') = r in elim x [ ok a ↦ f a w' | err e ↦ (err e, w') ])
      step (ok b, w') h = h
      step (err e, w') h = tt

  pub Ensures-if :
      (b : Bool) (m n : Action A) (w : World)
      → (b ≡ true → Ensures Q (m w))
      → (b ≡ false → Ensures Q (n w))
      → Ensures Q ((if b then m else n) w)
  Ensures-if true m n w h k = h refl
  Ensures-if false m n w h k = k refl

  -- A read and what follows it: with the row, or with the report that there is none.
  pub Ensures-if_found :
      {B : Type 0} (q : Store → Result GormError B) (f : B → Action A) (g : Action A) (w : World)
      → ((b : B) → q w.store ≡ ok b → Ensures Q (f b w))
      → (q w.store ≡ err record_not_found → Ensures Q (g w))
      → Ensures Q (if_found (read q) f g w)
  unfolding if_found read Ensures from_gorm_read map_gorm_not_found
  Ensures-if_found q f g w = step (q w.store)
    where
      step :
          (r : Result GormError _)
          → ((b : _) → r ≡ ok b → Ensures Q (f b w))
          → (r ≡ err record_not_found → Ensures Q (g w))
          → Ensures Q (
              let (x, w') = from_gorm_read r w in
              elim x [ ok a ↦ f a w' | err e ↦ if is_not_found e then g w' else (err e, w') ])
      step (ok b) h k = h b refl
      step (err record_not_found) h k = k refl
      step (err (failed n)) h k = tt

  pub Ensures-not_found_as :
      (other : Error) (m : Action A) (w : World)
      → Ensures Q (m w)
      → Ensures Q (not_found_as other m w)
  unfolding not_found_as Ensures
  Ensures-not_found_as other m w = step (m w)
    where
      step :
          (r : Result Error A × World)
          → Ensures Q r
          → Ensures Q (
              let (x, w') = r in
              elim x [
                | ok a ↦ (ok a, w')
                | err e ↦ (err (if is_not_found e then other else e), w')
              ])
      step (ok b, w') h = h
      step (err e, w') h = tt

  pub Ensures-read :
      (q : Store → Result GormError A) (w : World)
      → ((a : A) → q w.store ≡ ok a → Q a w)
      → Ensures Q (read q w)
  unfolding read Ensures
  Ensures-read q w = step (q w.store)
    where
      step :
          (r : Result GormError A) → ((a : A) → r ≡ ok a → Q a w) → Ensures Q (from_gorm_read r w)
      step (ok a) h = h a refl
      step (err e) h = tt

  pub Ensures-read_all :
      (q : Store → Result GormError A) (w : World)
      → ((a : A) → q w.store ≡ ok a → Q a w)
      → Ensures Q (read_all q w)
  unfolding read_all Ensures
  Ensures-read_all q w = step (q w.store)
    where
      step : (r : Result GormError A) → ((a : A) → r ≡ ok a → Q a w) → Ensures Q (from_gorm r w)
      step (ok a) h = h a refl
      step (err e) h = tt

module _ (Q : Unit {0} → World → Type 0) where
  pub Ensures-raise_if :
      (c : Bool) (e : Error) (w : World) → (c ≡ false → Q tt w) → Ensures Q (raise_if c e w)
  unfolding raise_if Ensures
  Ensures-raise_if true e w h = tt
  Ensures-raise_if false e w h = h refl

  pub Ensures-write :
      (q : Store → Result GormError Store) (w : World)
      → ((s : Store) → q w.store ≡ ok s → Q tt (record w { store = s }))
      → Ensures Q (write q w)
  unfolding write Ensures
  Ensures-write q w = step (q w.store)
    where
      step :
          (r : Result GormError Store)
          → ((s : Store) → r ≡ ok s → Q tt (record w { store = s }))
          → Ensures Q
              (elim r [ ok s ↦ (ok tt, record w { store = s }) | err e ↦ (err (database e), w) ])
      step (ok s) h = h s refl
      step (err e) h = tt

module _ (env : Env) where
  pub Ensures-time_now :
      (Q : Time → World → Type 0) (w : World)
      → ((t : Time) → Q t (record w { ticks = suc w.ticks }))
      → Ensures Q (time_now env w)
  unfolding time_now Ensures
  Ensures-time_now Q w h = h (env.clock w.ticks)

  pub Ensures-generate_entity_id :
      (Q : String → World → Type 0) (prefix : String) (w : World)
      → ((id : String) → Q id (record w { draws = suc w.draws }))
      → Ensures Q (generate_entity_id env prefix w)
  unfolding generate_entity_id Ensures
  Ensures-generate_entity_id Q prefix w h = elim (Option-cases (env.random w.draws)) [
    | inl dry ↦ rw dry tt
    | inr (digits, e) ↦ rw e (h (prefix ++ digits))
  ]
