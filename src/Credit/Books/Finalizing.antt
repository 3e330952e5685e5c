-- ===== src/Credit/Books/Finalizing.antt =====
-- The books during `finalizeReservation` of internal/service/credit.go.
use walnut_billing.Prelude.{
  String, ◌≡◌, refl, sym, ap, Bool, true, false, some, List, arith, if◌then◌else◌, inl, inr,
  Bool-cases, ◌&&◌,
}
use walnut_billing.Prelude.Int.{ℤ, pos, ◌+ℤ◌, ◌-ℤ◌, int_laws}
use walnut_billing.Prelude.Word.{wrap64}
use walnut_billing.Domain.{Time}
use walnut_billing.Domain.Credit.{
  CreditAccount, CreditBucket, CreditReservation, ReservationStatus, TransactionType, is_pending,
  is_released,
}
use walnut_billing.Repository.Table.{lookup}
use walnut_billing.Repository.World.{Store, World, Env, CreditBucketAllocation}
use walnut_billing.Repository.Ensures.{
  Ensures, Ensures-bind, Ensures-pure, Ensures-if, Ensures-raise_if, Ensures-time_now,
  Ensures-not_found_as,
}
use walnut_billing.Repository.Credit.Rules.{
  IsGorm, Ensures-update_account, Ensures-update_reservation, Ensures-account_by_id,
  Ensures-reservation_by_id,
}
use walnut_billing.Credit.Finalize.{
  is_release, is_nonempty, finalized, balance_after, settle_buckets, write_finalized,
  apply_finalize,
}
use walnut_billing.Credit.Books.Amounts.{granted_out, sub64-add, add64_lem}
use walnut_billing.Credit.Books.Start.{Kept, IsBooked-start, IsBooked-end}
use walnut_billing.Credit.Books.{IsConsistent}
use walnut_billing.Credit.Books.Booked.{
  IsBooked, IsBooked-buckets, IsBooked-saved, IsBooked-saved_reservation, balance-add_zero,
  Ensures-new_credit_transaction,
}
use walnut_billing.Credit.Books.Expiry.{Ensures-finalize_bucket_allocations}

-- The account of a pending reservation, and the reservation, as the tables have them.
record IsHeld (a : CreditAccount) (r : CreditReservation) (s : Store) : Type 0 where
  booked : IsBooked a (pos 0) (pos 0) s
  found : lookup (λ x. x.id) r.id s.reservations ≡ some r

IsHeld-buckets :
    (a : CreditAccount) (r : CreditReservation) (s : Store) (rows : List CreditBucket)
    → IsHeld a r s
    → IsHeld a r (record s { buckets = rows })
IsHeld-buckets a r s rows h = record {
  booked = IsBooked-buckets a (pos 0) (pos 0) s rows h.booked;
  found = h.found;
}

-- What goes back to the balance.
abbrev credited : ReservationStatus → ℤ → ℤ
credited final restored = if is_released final then restored else pos 0

balance_after-add :
    (final : ReservationStatus) (a : CreditAccount) (restored : ℤ) (s : Store)
    → IsBooked a (pos 0) (pos 0) s
    → balance_after final a restored ≡ wrap64 (a.balance +ℤ credited final restored)
unfolding balance_after
balance_after-add final a restored s h = elim (Bool-cases (is_released final)) [
  | inl back ↦ rw back (add64_lem a.balance restored)
  | inr kept ↦ rw kept (balance-add_zero a (pos 0) (pos 0) s h)
]

finalized-done :
    (final : ReservationStatus) (now : Time) (r : CreditReservation)
    → is_pending final ≡ false
    → is_pending (finalized final now r).status ≡ false
unfolding finalized
finalized-done final now r h = h

returned_out : (x : ℤ) → wrap64 (pos 0 +ℤ (pos 0 -ℤ x) +ℤ x) ≡ wrap64 (pos 0)
returned_out x = ap wrap64 (omega int_laws)

module _ (env : Env) (laws : IsGorm env.gorm) (final : ReservationStatus) (type : TransactionType)
    (done : is_pending final ≡ false) (agree : is_release type ≡ is_released final) where
  Ensures-settle_buckets :
      (Q : ℤ → World → Type 0) (a : CreditAccount) (r : CreditReservation) (has_buckets : Bool)
      (amount : ℤ) (shares : List CreditBucketAllocation) (now : Time) (w : World)
      → IsHeld a r w.store
      → ((x : ℤ) (w' : World) → IsHeld a r w'.store → Q x w')
      → Ensures Q (settle_buckets env has_buckets final amount shares now w)
  unfolding settle_buckets
  Ensures-settle_buckets Q a r has_buckets amount shares now w h k =
      Ensures-if Q (has_buckets && is_nonempty shares) _ _ w
        (λ split. Ensures-bind Q _ _ w (
          Ensures-finalize_bucket_allocations env laws (IsHeld a r) (IsHeld-buckets a r) _ shares
            final now w h λ x w1 h1. Ensures-pure Q _ w1 (k _ w1 h1)))
        (λ whole. Ensures-pure Q _ w (k _ w h))

  credited_out :
      (x : ℤ)
      → wrap64 (pos 0 +ℤ credited final x -ℤ (if is_release type then x else pos 0))
        ≡ wrap64 (pos 0)
  credited_out x = rw agree (granted_out (credited final x))

  write_finalized-Kept :
      (key : String) (r : CreditReservation) (a : CreditAccount)
      (shares : List CreditBucketAllocation) (restored : ℤ) (now : Time) (w : World)
      → r.account_id ≡ a.id
      → is_pending r.status ≡ true
      → IsHeld a r w.store
      → Ensures Kept (write_finalized env final type key r a shares restored now w)
  unfolding write_finalized
  write_finalized-Kept key r a shares restored now w same pending h = Ensures-bind Kept _ _ w (
      Ensures-update_account env.gorm laws _ _ w (
        Ensures-bind Kept _ _ _ (
          Ensures-update_reservation env.gorm laws _ _ _ (
            Ensures-bind Kept _ _ _ (
              Ensures-new_credit_transaction env laws _ _ (pos 0 +ℤ credited final restored)
                (pos 0 +ℤ (pos 0 -ℤ r.amount) +ℤ r.amount) _
                (IsBooked-saved_reservation _ _ _ r _ _ h.found same pending refl
                  (finalized-done final now r done)
                  (IsBooked-saved a _ (pos 0) (pos 0) (credited final restored) (pos 0 -ℤ r.amount)
                    w.store refl (balance_after-add final a restored w.store h.booked)
                    (sub64-add a.reserved r.amount) h.booked))
                λ t w1 amount h1. Ensures-pure Kept _ w1 (
                  IsBooked-end _ _ _ w1.store (credited_out restored) (returned_out r.amount)
                    h1))))))

  pub apply_finalize-Kept :
      (has_buckets : Bool) (reservation_id key : String) (w : World)
      → IsConsistent w.store
      → Ensures Kept (apply_finalize env has_buckets final type reservation_id key w)
  unfolding apply_finalize
  apply_finalize-Kept has_buckets reservation_id key w c = Ensures-bind Kept _ _ w (
      Ensures-not_found_as _ _ _ w (
        Ensures-reservation_by_id env.gorm laws _ reservation_id w λ r _ there.
          Ensures-bind Kept _ _ w (
            Ensures-raise_if _ _ _ w λ pending. Ensures-bind Kept _ _ w (
              Ensures-time_now env _ w λ now. Ensures-bind Kept _ _ _ (
                Ensures-raise_if _ _ _ _ λ in_time. Ensures-bind Kept _ _ _ (
                  Ensures-account_by_id env.gorm laws _ _ _ λ a same found.
                    Ensures-bind Kept _ _ _ (
                      Ensures-raise_if _ _ _ _ λ enough. Ensures-bind Kept _ _ _ (
                        Ensures-settle_buckets _ a r has_buckets r.amount _ now _
                          (record { booked = IsBooked-start a w.store c found; found = there })
                          λ restored w1 h1.
                            write_finalized-Kept key r a _ restored now w1 (sym same) (ground arith)
                              h1))))))))
