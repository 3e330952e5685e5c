-- ===== src/Repository/Keeps.antt =====
-- A property of the tables that an action keeps, however it ends; and a unit of work, which keeps
-- what its operation keeps when it returns no error.
use walnut_billing.Prelude.{true, false, if◌then◌else◌, ◌≡◌, sym, Bool, String, if◌then◌else◌}
use mathlib.Core.Path.{subst}
use walnut_billing.Repository.Error.{
  GormError, Error, not_found, is_not_found, database, Result, ok, err,
}
use walnut_billing.Repository.World.{Store, World, Gorm, Env}
use walnut_billing.Repository.Monad.{
  Action, pure, ◌>>=◌, raise_if, if_found, not_found_as, from_gorm, from_gorm_read, read, read_all,
  time_now, generate_entity_id,
}
use walnut_billing.Repository.Transaction.{
  begin_uow, finish_uow, begun, in_transaction, rolled_back,
}
use walnut_billing.Repository.Ensures.{Ensures}

abbrev pub Holds : {A : Type 0} → (Store → Type 0) → Result Error A × World → Type 0
Holds P (r, w) = P w.store

module _ (P : Store → Type 0) where
  pub record Keeps {A : Type 0} (m : Action A) : Type 0 where
    pub keeps : (w : World) → P w.store → P (m w).1.store

  module _ {A : Type 0} where
    pub Keeps-pure : (a : A) → Keeps (pure a)
    unfolding pure
    Keeps-pure a = record { keeps = λ w h. h }

    pub Keeps-bind :
        {B : Type 0} (m : Action B) (f : B → Action A)
        → Keeps m
        → ((b : B) → Keeps (f b))
        → Keeps (m >>= f)
    unfolding ◌>>=◌
    Keeps-bind m f hm hf = record { keeps = λ w h. step (m w) (hm.keeps w h) }
      where
        step :
            (r : Result Error _ × World)
            → P r.1.store
            → Holds {A = A} P (let (x, w') = r in elim x [ ok a ↦ f a w' | err e ↦ (err e, w') ])
        step (ok b, w') h = (hf b).keeps w' h
        step (err e, w') h = h

    pub Keeps-if_found :
        {B : Type 0} (m : Action B) (f : B → Action A) (g : Action A)
        → Keeps m
        → ((b : B) → Keeps (f b))
        → Keeps g
        → Keeps (if_found m f g)
    unfolding if_found
    Keeps-if_found m f g hm hf hg = record { keeps = λ w h. step (m w) (hm.keeps w h) }
      where
        step :
            (r : Result Error _ × World)
            → P r.1.store
            → Holds {A = A} P (
                let (x, w') = r in
                elim x [ ok a ↦ f a w' | err e ↦ if is_not_found e then g w' else (err e, w') ])
        step (ok b, w') h = (hf b).keeps w' h
        step (err not_found, w') h = hg.keeps w' h
        step (err e, w') h = h

    pub Keeps-if : (b : Bool) (m n : Action A) → Keeps m → Keeps n → Keeps (if b then m else n)
    Keeps-if true m n h k = h
    Keeps-if false m n h k = k

    -- What an action keeps however it ends, it keeps when it returns no error.
    pub Ensures-Keeps :
        (m : Action A) (w : World) → Keeps m → P w.store → Ensures (λ a w'. P w'.store) (m w)
    unfolding Ensures
    Ensures-Keeps m w hm h = step (m w) (hm.keeps w h)
      where
        step : (r : Result Error A × World) → P r.1.store → Ensures (λ a w'. P w'.store) r
        step (ok a, w') p = p
        step (err e, w') p = tt

    pub Keeps-not_found_as : (other : Error) (m : Action A) → Keeps m → Keeps (not_found_as other m)
    unfolding not_found_as
    Keeps-not_found_as other m hm = record { keeps = λ w h. step (m w) (hm.keeps w h) }
      where
        step :
            (r : Result Error A × World)
            → P r.1.store
            → Holds {A = A} P (
                let (x, w') = r in
                elim x [
                  | ok a ↦ (ok a, w')
                  | err e ↦ (err (if is_not_found e then other else e), w')
                ])
        step (ok b, w') h = h
        step (err e, w') h = h

    pub Keeps-read : (q : Store → Result GormError A) → Keeps (read q)
    unfolding read
    Keeps-read q = record { keeps = λ w. step w (q w.store) }
      where
        step : (w : World) (r : Result GormError A) → P w.store → P (from_gorm_read r w).1.store
        step w (ok a) h = h
        step w (err e) h = h

    pub Keeps-read_all : (q : Store → Result GormError A) → Keeps (read_all q)
    unfolding read_all
    Keeps-read_all q = record { keeps = λ w. step w (q w.store) }
      where
        step : (w : World) (r : Result GormError A) → P w.store → P (from_gorm r w).1.store
        step w (ok a) h = h
        step w (err e) h = h

  pub Keeps-raise_if : (c : Bool) (e : Error) → Keeps (raise_if c e)
  unfolding raise_if
  Keeps-raise_if c e = record { keeps = λ w h. h }

  pub Keeps-time_now : (env : Env) → Keeps (time_now env)
  unfolding time_now
  Keeps-time_now env = record { keeps = λ w h. h }

  pub Keeps-generate_entity_id :
      (env : Env) (prefix : String) → Keeps (generate_entity_id env prefix)
  unfolding generate_entity_id
  Keeps-generate_entity_id env prefix = record { keeps = λ w h. h }

  module _ (g : Gorm) (restores : (before now : Store) → g.rollback before now ≡ before) where
    rolled_back_keeps : (before : Store) (w : World) → P before → P (rolled_back g before w).store
    rolled_back_keeps before w p = subst P (sym (restores before w.store)) p

    committed :
        {A : Type 0} (before : Store) (a : A) (w : World) (r : Result GormError (Unit {0}))
        → P before
        → P w.store
        → Holds {A = A} P
            (elim r [ ok _ ↦ (ok a, w) | err e ↦ (err (database e), rolled_back g before w) ])
    committed before a w (ok _) p q = q
    committed before a w (err e) p q = rolled_back_keeps before w p

    finished :
        {A : Type 0} (before : Store) (r : Result Error A × World)
        → P before
        → Ensures (λ a w'. P w'.store) r
        → P (finish_uow g before r).1.store
    unfolding finish_uow Ensures
    finished before (ok a, w) p h = committed before a w (g.commit w.store) p h
    finished before (err e, w) p h = rolled_back_keeps before w p

    begun_keeps :
        {A : Type 0} (m : Action A) (w : World) (r : Result GormError (Unit {0}))
        → ((w : World) → P w.store → Ensures (λ a w'. P w'.store) (m w))
        → P w.store
        → P
            (begun g m w.store
              (elim r [ ok u ↦ (ok u, w) | err e ↦ (err (database e), w) ])).1.store
    unfolding begun
    begun_keeps m w (ok u) h p = finished w.store (m w) p (h w p)
    begun_keeps m w (err e) h p = p

    -- A unit of work keeps a property that its operation establishes when it returns no error.
    pub Keeps-in_transaction :
        {A : Type 0} (m : Action A)
        → ((w : World) → P w.store → Ensures (λ a w'. P w'.store) (m w))
        → Keeps (in_transaction g m)
    unfolding in_transaction begin_uow
    Keeps-in_transaction m h = record { keeps = λ w p. begun_keeps m w (g.begin w.store) h p }
