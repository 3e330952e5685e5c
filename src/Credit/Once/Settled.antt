-- ===== src/Credit/Once/Settled.antt =====
-- Reservations that are no longer pending, in `finalizeReservation` of internal/service/credit.go.
use walnut_billing.Prelude.{String, ◌≡◌, refl, ◌∙◌, Bool, false, not, some}
use mathlib.Core.Path.{subst}
use walnut_billing.Prelude.Text.{eq_iff}
use walnut_billing.Domain.Credit.{CreditReservation, ReservationStatus, TransactionType, is_pending}
use walnut_billing.Repository.Table.{lookup, upsert}
use walnut_billing.Repository.Table.Lookup.{lookup-upsert}
use walnut_billing.Repository.World.{Store, World, Env}
use walnut_billing.Repository.Ensures.{
  Ensures, Ensures-mono, Ensures-bind, Ensures-pure, Ensures-not_found_as, Ensures-raise_if,
  Ensures-generate_entity_id,
}
use walnut_billing.Repository.Outcome.{Ensures-last}
use walnut_billing.Repository.Credit.Rules.{
  IsGorm, Ensures-reservation_by_id, Ensures-update_reservation, Ensures-create_transaction,
}
use walnut_billing.Credit.Ledger.{
  CreditMutationResult, CreditTransactionInput, new_credit_transaction,
}
use walnut_billing.Credit.Finalize.{finalized, apply_finalize, write_finalized}

-- The reservation with an id is there and is no longer pending.
abbrev pub IsSettled : String → Store → Type 0
IsSettled k s =
    (r : CreditReservation) × (lookup (λ x. x.id) k s.reservations ≡ some r)
    × (is_pending r.status ≡ false)

module _ (env : Env) (laws : IsGorm env.gorm) where
  -- A ledger row leaves the reservations as they are.
  recorded :
      (P : Store → Type 0) (input : CreditTransactionInput) (w : World)
      → ((s : Store) (ts : _) → P s → P (record s { transactions = ts }))
      → P w.store
      → Ensures (λ t w'. P w'.store) (new_credit_transaction env input w)
  unfolding new_credit_transaction
  recorded P input w keep h = Ensures-bind _ _ _ w (
      Ensures-generate_entity_id env _ _ w λ id. Ensures-bind _ _ _ _ (
        Ensures-create_transaction env.gorm laws _ _ _
          λ fresh. Ensures-pure _ _ _ (keep w.store _ h)))

  module _ (final : ReservationStatus) (type : TransactionType)
      (done : is_pending final ≡ false) where
    pub apply_finalize-IsSettled :
        (has_buckets : Bool) (k key : String) (w : World)
        → Ensures
            (λ res w'. IsSettled k w'.store)
            (apply_finalize env has_buckets final type k key w)
    unfolding apply_finalize write_finalized finalized
    apply_finalize-IsSettled has_buckets k key w = Ensures-bind _ _ _ w (
        Ensures-not_found_as _ _ _ w (
          Ensures-reservation_by_id env.gorm laws _ k w λ r named there.
            Ensures-last _ _ _ w λ _ w1. Ensures-last _ _ _ w1 λ now w2.
              Ensures-last _ _ _ w2 λ _ w3. Ensures-last _ _ _ w3 λ account w4.
                Ensures-last _ _ _ w4 λ _ w5. Ensures-last _ _ _ w5 λ restored w6.
                  Ensures-last _ _ _ w6 λ _ w7. Ensures-bind _ _ _ w7 (
                    Ensures-update_reservation env.gorm laws _ _ w7 (
                      Ensures-bind _ _ _ _ (
                        Ensures-mono _ _ _ (λ t w8 h. Ensures-pure _ _ _ h)
                          (recorded (IsSettled k) _ _ (λ s ts h. h)
                            (finalized final now r, stored r now w7 named, done)))))))
      where
        stored :
            (r : CreditReservation) (now : _) (v : World)
            → r.id ≡ k
            → lookup (λ x. x.id) k (upsert (λ x. x.id) (finalized final now r) v.store.reservations)
              ≡ some (finalized final now r)
        stored r now v named =
            lookup-upsert (λ x. x.id) k (finalized final now r) v.store.reservations
            ∙ rw ((eq_iff r.id k).1 named) refl

    -- A reservation that is settled is refused.
    pub apply_finalize-refused :
        (has_buckets : Bool) (k key : String) (w : World)
        (Q : CreditMutationResult → World → Type 0)
        → IsSettled k w.store
        → Ensures Q (apply_finalize env has_buckets final type k key w)
    unfolding apply_finalize
    apply_finalize-refused has_buckets k key w Q (r, there, settled) = Ensures-bind _ _ _ w (
        Ensures-not_found_as _ _ _ w (
          Ensures-reservation_by_id env.gorm laws _ k w λ r' named there'.
            Ensures-bind _ _ _ w
              (Ensures-raise_if _ _ _ w λ pending. elim (clash r' named there' pending) [ ])))
      where
        same :
            (r' : CreditReservation)
            → lookup (λ x. x.id) k w.store.reservations ≡ some r
            → lookup (λ x. x.id) k w.store.reservations ≡ some r'
            → r ≡ r'
        same r' one two = cc

        refuse : {b : Bool} → b ≡ false → ¬ (not b ≡ false)
        refuse e = rw e λ h. cc

        clash :
            (r' : CreditReservation)
            → r'.id ≡ k
            → lookup (λ x. x.id) r'.id w.store.reservations ≡ some r'
            → ¬ (not (is_pending r'.status) ≡ false)
        clash r' named there' pending =
            refuse
              (subst (λ x. is_pending x.status ≡ false)
                (same r' there
                  (subst (λ i. lookup (λ x. x.id) i w.store.reservations ≡ some r') named there'))
                settled)
              pending
