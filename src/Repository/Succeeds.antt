-- ===== src/Repository/Succeeds.antt =====
-- An action that returns no error, with a rule for each step of a `do` block.
use Prim.Native.String.{◌++◌}
use walnut_billing.Prelude.{suc, String, ◌≡◌, Bool, false, some, if◌then◌else◌}
use mathlib.Core.Path.{subst}
use walnut_billing.Domain.{Time}
use walnut_billing.Repository.Error.{
  GormError, record_not_found, map_gorm_not_found, Error, is_not_found, database, failed, Result,
  ok, err,
}
use walnut_billing.Repository.World.{Store, World, Gorm, Env}
use walnut_billing.Repository.Monad.{
  Action, pure, ◌>>=◌, raise_if, if_found, not_found_as, from_gorm_read, read, write, time_now,
  generate_entity_id,
}
use walnut_billing.Repository.Transaction.{
  begin_uow, finish_uow, begun, rolled_back, in_transaction,
}

-- The run ended without an error, and `Q` holds of its value and world.
unfoldable pub Succeeds : {A : Type 0} → (A → World → Type 0) → Result Error A × World → Type 0
Succeeds Q (ok a, w) = Q a w
Succeeds Q (err e, w) = ⊥

module _ {A : Type 0} (Q : A → World → Type 0) where
  pub Succeeds-pure : (a : A) (w : World) → Q a w → Succeeds Q (pure a w)
  unfolding Succeeds pure
  Succeeds-pure a w h = h

  pub Succeeds-bind :
      {B : Type 0} (m : Action B) (f : B → Action A) (w : World)
      → Succeeds (λ b w'. Succeeds Q (f b w')) (m w)
      → Succeeds Q ((m >>= f) w)
  unfolding ◌>>=◌ Succeeds
  Succeeds-bind m f w = step (m w)
    where
      step :
          (r : Result Error _ × World)
          → Succeeds (λ b w'. Succeeds Q (f b w')) r
          → Succeeds Q (let (x, w') = r in elim x [ ok a ↦ f a w' | err e ↦ (err e, w') ])
      step (ok b, w') h = h
      step (err e, w') h = h

  pub Succeeds-not_found_as :
      (other : Error) (m : Action A) (w : World)
      → Succeeds Q (m w)
      → Succeeds Q (not_found_as other m w)
  unfolding not_found_as Succeeds
  Succeeds-not_found_as other m w = step (m w)
    where
      step :
          (r : Result Error A × World)
          → Succeeds Q r
          → Succeeds Q (
              let (x, w') = r in
              elim x [
                | ok a ↦ (ok a, w')
                | err e ↦ (err (if is_not_found e then other else e), w')
              ])
      step (ok b, w') h = h
      step (err e, w') h = h

  pub Succeeds-read :
      (q : Store → Result GormError A) (w : World) (a : A)
      → q w.store ≡ ok a
      → Q a w
      → Succeeds Q (read q w)
  unfolding read from_gorm_read Succeeds
  Succeeds-read q w a e h = rw e h

  pub Succeeds-missing :
      {B : Type 0} (q : Store → Result GormError B) (f : B → Action A) (g : Action A) (w : World)
      → q w.store ≡ err record_not_found
      → Succeeds Q (g w)
      → Succeeds Q (if_found (read q) f g w)
  unfolding if_found read from_gorm_read Succeeds map_gorm_not_found
  Succeeds-missing q f g w = step (q w.store)
    where
      step :
          (r : Result GormError _)
          → r ≡ err record_not_found
          → Succeeds Q (g w)
          → Succeeds Q (
              let (x, w') = from_gorm_read r w in
              elim x [ ok a ↦ f a w' | err e ↦ if is_not_found e then g w' else (err e, w') ])
      step (ok b) e h = cc
      step (err record_not_found) e h = h
      step (err (failed n)) e h = cc

  pub Succeeds-in_transaction :
      (g : Gorm) (m : Action A) (w : World)
      → ((s : Store) → g.begin s ≡ ok tt)
      → ((s : Store) → g.commit s ≡ ok tt)
      → Succeeds Q (m w)
      → Succeeds Q (in_transaction g m w)
  unfolding in_transaction begin_uow begun finish_uow Succeeds
  Succeeds-in_transaction g m w begins commits h = opened (g.begin w.store) (begins w.store)
    where
      committed :
          (a : A) (v : World) (r : Result GormError (Unit {0}))
          → r ≡ ok tt
          → Q a v
          → Succeeds Q
              (elim r [ ok _ ↦ (ok a, v) | err e ↦ (err (database e), rolled_back g w.store v) ])
      committed a v (ok u) e h = h
      committed a v (err x) e h = cc

      step : (r : Result Error A × World) → Succeeds Q r → Succeeds Q (finish_uow g w.store r)
      step (ok a, w') h = committed a w' (g.commit w'.store) (commits w'.store) h
      step (err e, w') h = elim h [ ]

      opened :
          (r : Result GormError (Unit {0}))
          → r ≡ ok tt
          → Succeeds Q
              (begun g m w.store (elim r [ ok u ↦ (ok u, w) | err e ↦ (err (database e), w) ]))
      opened (ok u) e = step (m w) h
      opened (err x) e = cc

module _ (Q : Unit {0} → World → Type 0) where
  pub Succeeds-raise_if :
      (c : Bool) (e : Error) (w : World) → c ≡ false → Q tt w → Succeeds Q (raise_if c e w)
  unfolding raise_if Succeeds
  Succeeds-raise_if c e w passed h = rw passed h

  pub Succeeds-write :
      (q : Store → Result GormError Store) (w : World) (s : Store)
      → q w.store ≡ ok s
      → Q tt (record w { store = s })
      → Succeeds Q (write q w)
  unfolding write Succeeds
  Succeeds-write q w s = step (q w.store)
    where
      step :
          (r : Result GormError Store)
          → r ≡ ok s
          → Q tt (record w { store = s })
          → Succeeds Q
              (elim r [ ok s ↦ (ok tt, record w { store = s }) | err e ↦ (err (database e), w) ])
      step (ok t) e h = subst (λ u. Q tt (record w { store = u })) (same e) h
        where
          same : ◌≡◌ {A = Result GormError Store} (ok t) (ok s) → s ≡ t
          same e = cc
      step (err x) e h = cc

module _ (env : Env) where
  pub Succeeds-time_now :
      (Q : Time → World → Type 0) (w : World)
      → Q (env.clock w.ticks) (record w { ticks = suc w.ticks })
      → Succeeds Q (time_now env w)
  unfolding time_now Succeeds
  Succeeds-time_now Q w h = h

  pub Succeeds-generate_entity_id :
      (Q : String → World → Type 0) (prefix digits : String) (w : World)
      → env.random w.draws ≡ some digits
      → Q (prefix ++ digits) (record w { draws = suc w.draws })
      → Succeeds Q (generate_entity_id env prefix w)
  unfolding generate_entity_id Succeeds
  Succeeds-generate_entity_id Q prefix digits w e h = rw e h
