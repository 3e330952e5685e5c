-- ===== src/Credit/Books/Reserving.antt =====
-- The books during `Reserve` of internal/service/credit.go.
use walnut_billing.Prelude.{String, refl, Bool}
use walnut_billing.Prelude.Int.{pos, ◌+ℤ◌, ◌-ℤ◌}
use walnut_billing.Repository.World.{World, Env}
use walnut_billing.Repository.Ensures.{
  Ensures, Ensures-bind, Ensures-pure, Ensures-raise_if, Ensures-time_now,
  Ensures-generate_entity_id,
}
use walnut_billing.Repository.Credit.Rules.{
  IsGorm, Ensures-update_account, Ensures-create_reservation,
}
use walnut_billing.Credit.Ledger.{CreditReservationInput}
use walnut_billing.Credit.Reserve.{reservation_of, apply_reserve}
use walnut_billing.Credit.Books.Amounts.{granted_out, reserved_out, sub64-add, add64_lem}
use walnut_billing.Credit.Books.Start.{Kept, IsBooked-end}
use walnut_billing.Credit.Books.{IsConsistent}
use walnut_billing.Credit.Books.Booked.{
  IsBooked-saved, IsBooked-added_reservation, Ensures-new_credit_transaction,
}
use walnut_billing.Credit.Books.Granting.{Ensures-ensure_credit_account}
use walnut_billing.Credit.Books.Expiry.{Ensures-reserve_bucket_credits}

module _ (env : Env) (laws : IsGorm env.gorm) where
  pub apply_reserve-Kept :
      (has_buckets : Bool) (input : CreditReservationInput) (key : String) (w : World)
      → IsConsistent w.store
      → Ensures Kept (apply_reserve env has_buckets input key w)
  unfolding apply_reserve reservation_of
  apply_reserve-Kept has_buckets input key w c =
      let x = input.amount in
      Ensures-bind Kept _ _ w (
        Ensures-ensure_credit_account env laws _ _ w c λ found w1 h1. Ensures-bind Kept _ _ w1 (
          Ensures-time_now env _ w1 λ now. Ensures-bind Kept _ _ _ (
            Ensures-reserve_bucket_credits env laws _ has_buckets found x now (pos 0) (pos 0) _ h1
              λ a shares w2 _ h2. Ensures-bind Kept _ _ w2 (
                Ensures-raise_if _ _ _ w2 λ enough. Ensures-bind Kept _ _ w2 (
                  Ensures-update_account env.gorm laws _ _ w2 (
                    Ensures-bind Kept _ _ _ (
                      Ensures-generate_entity_id env _ _ _ λ id. Ensures-bind Kept _ _ _ (
                        Ensures-create_reservation env.gorm laws _ _ _ λ fresh.
                          Ensures-bind Kept _ _ _ (
                            Ensures-new_credit_transaction env laws _ _ (pos 0 +ℤ (pos 0 -ℤ x))
                              (pos 0 +ℤ x -ℤ x) _
                              (IsBooked-added_reservation _ _ _ _ _ refl refl (
                                IsBooked-saved a _ (pos 0) (pos 0) (pos 0 -ℤ x) x w2.store refl
                                  (sub64-add a.balance x) (add64_lem a.reserved x) h2))
                              λ t w3 amount h3. Ensures-pure Kept _ w3 (
                                IsBooked-end _ _ _ w3.store (reserved_out x) (granted_out x)
                                  h3))))))))))
