-- ===== src/Repository/Atomic.antt =====
-- Actions that leave the tables as they were when they return an error.
use walnut_billing.Prelude.{◌≡◌, refl, ◌∙◌}
use walnut_billing.Repository.Error.{GormError, Error, database, Result, ok, err}
use walnut_billing.Repository.World.{Store, World, Gorm}
use walnut_billing.Repository.Monad.{Action, pure, ◌>>=◌}
use walnut_billing.Repository.Transaction.{
  begin_uow, finish_uow, begun, in_transaction, rolled_back,
}
use walnut_billing.Repository.Keeps.{Keeps}

-- An outcome that is an error has the tables `s`.
abbrev pub Undone : {A : Type 0} → Store → Result Error A × World → Type 0
Undone s r = (e : Error) → r.0 ≡ err e → r.1.store ≡ s

pub record IsAtomic {A : Type 0} (m : Action A) : Type 0 where
  pub undone : (w : World) → Undone w.store (m w)

module _ {A : Type 0} where
  -- What comes before an atomic action may not change the tables at all.
  pub IsAtomic-bind :
      {B : Type 0} (m : Action B) (f : B → Action A)
      → ((s : Store) → Keeps (λ t. t ≡ s) m)
      → ((b : B) → IsAtomic (f b))
      → IsAtomic (m >>= f)
  unfolding ◌>>=◌
  IsAtomic-bind m f hm hf = record { undone = λ w. step w.store (m w) ((hm w.store).keeps w refl) }
    where
      step :
          (s : Store) (r : Result Error _ × World)
          → r.1.store ≡ s
          → Undone {A = A} s (let (x, w') = r in elim x [ ok a ↦ f a w' | err e ↦ (err e, w') ])
      step s (ok b, w') h e failed = (hf b).undone w' e failed ∙ h
      step s (err d, w') h e failed = h

  -- What never changes the tables is atomic.
  pub IsAtomic-Keeps : (m : Action A) → ((s : Store) → Keeps (λ t. t ≡ s) m) → IsAtomic m
  IsAtomic-Keeps m h = record { undone = λ w e failed. (h w.store).keeps w refl }

  -- A value computed from the value of an atomic action.
  pub IsAtomic-map :
      {B : Type 0} (m : Action B) (f : B → A) → IsAtomic m → IsAtomic (m >>= λ b. pure (f b))
  unfolding ◌>>=◌ pure
  IsAtomic-map m f h = record { undone = λ w. step w.store (m w) (h.undone w) }
    where
      step :
          (s : Store) (r : Result Error _ × World)
          → Undone s r
          → Undone {A = A} s
              (let (x, w') = r in elim x [ ok a ↦ (ok (f a), w') | err e ↦ (err e, w') ])
      step s (ok b, w') h e failed = cc
      step s (err d, w') h e failed = h d refl

  module _ (g : Gorm) (restores : (before now : Store) → g.rollback before now ≡ before) where
    committed :
        (before : Store) (a : A) (w : World) (r : Result GormError (Unit {0}))
        → Undone {A = A} before
            (elim r [ ok _ ↦ (ok a, w) | err e ↦ (err (database e), rolled_back g before w) ])
    committed before a w (ok u) e failed = cc
    committed before a w (err d) e failed = restores before w.store

    finished : (before : Store) (r : Result Error A × World) → Undone before (finish_uow g before r)
    unfolding finish_uow
    finished before (ok a, w) e failed = committed before a w (g.commit w.store) e failed
    finished before (err d, w) e failed = restores before w.store

    begun_undone :
        (m : Action A) (w : World) (r : Result GormError (Unit {0}))
        → Undone w.store
            (begun g m w.store (elim r [ ok u ↦ (ok u, w) | err e ↦ (err (database e), w) ]))
    unfolding begun
    begun_undone m w (ok u) e failed = finished w.store (m w) e failed
    begun_undone m w (err d) e failed = refl

    pub IsAtomic-in_transaction : (m : Action A) → IsAtomic (in_transaction g m)
    unfolding in_transaction begin_uow
    IsAtomic-in_transaction m = record { undone = λ w. begun_undone m w (g.begin w.store) }
