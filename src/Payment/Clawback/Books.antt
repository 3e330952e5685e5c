-- ===== src/Payment/Clawback/Books.antt =====
-- The books during `clawbackFulfilledCredits` of internal/service/payment_adjustment.go.
use walnut_billing.Prelude.{String, ◌≡◌, refl, Bool, false, not, ◌&&◌, Option, All, arith}
use walnut_billing.Prelude.Int.{ℤ, pos, ◌+ℤ◌, ◌-ℤ◌, ◌≤ℤ◌, ltb_ℤ, leb_ℤ}
use walnut_billing.Prelude.Text.{trim, is_empty}
use walnut_billing.Domain.{Time}
use walnut_billing.Domain.Credit.{CreditAccount, CreditTransaction}
use walnut_billing.Repository.Error.{ok}
use walnut_billing.Repository.Table.Lookup.{All-lookup}
use walnut_billing.Repository.World.{Store, World, Env}
use walnut_billing.Repository.Ensures.{
  Ensures, Ensures-bind, Ensures-pure, Ensures-if, Ensures-if_found, Ensures-raise_if,
  Ensures-time_now,
}
use walnut_billing.Repository.Outcome.{after}
use walnut_billing.Repository.Credit.{
  bucket_by_id, transaction_by_id, transaction_by_idempotency_key,
}
use walnut_billing.Repository.Credit.Rules.{
  IsGorm, Ensures-update_account, Ensures-update_bucket, Ensures-account_by_id,
}
use walnut_billing.Credit.Allocation.{min_int64}
use walnut_billing.Credit.Holding.{charged}
use walnut_billing.Credit.Books.{IsConsistent}
use walnut_billing.Credit.Books.Amounts.{sub64-add, zero_of_not_pos, balanced_out, unchanged}
use walnut_billing.Credit.Books.Start.{Kept, IsBooked-start, IsBooked-end}
use walnut_billing.Credit.Books.Booked.{
  IsBooked, IsBooked-buckets, IsBooked-congr, IsBooked-saved_balance,
  Ensures-new_credit_transaction,
}
use walnut_billing.Payment.Order.{Order}
use walnut_billing.Payment.Clawback.{
  FulfillmentExecution, SourceBucket, clawback_amount, source_bucket, write_source, take_back,
  claw_back, clawback_fulfilled_credits,
}

-- No balance and no remainder of a bucket is negative.
pub record IsFunded (s : Store) : Type 0 where
  pub balances : All (λ a. pos 0 ≤ℤ a.balance) s.accounts
  pub remainders : All (λ b. pos 0 ≤ℤ b.remaining) s.buckets

abbrev HasRemainder : SourceBucket → Type 0
HasRemainder SourceBucket.unattributed = Unit
HasRemainder SourceBucket.missing = Unit
HasRemainder (SourceBucket.found b) = pos 0 ≤ℤ b.remaining

clawback_amount-nonneg :
    (x : ℤ) (a : CreditAccount) (source : SourceBucket)
    → leb_ℤ x (pos 0) ≡ false
    → pos 0 ≤ℤ a.balance
    → HasRemainder source
    → pos 0 ≤ℤ clawback_amount x a source
unfolding clawback_amount min_int64
clawback_amount-nonneg x a SourceBucket.unattributed h k l = ground arith
clawback_amount-nonneg x a SourceBucket.missing h k l = ground arith
clawback_amount-nonneg x a (SourceBucket.found b) h k l = ground arith

module _ (env : Env) (laws : IsGorm env.gorm) where
  Ensures-source_bucket :
      (Q : SourceBucket → World → Type 0) (has_buckets : Bool) (id : String) (w : World)
      → IsFunded w.store
      → ((source : SourceBucket) → HasRemainder source → Q source w)
      → Ensures Q (source_bucket env has_buckets id w)
  unfolding source_bucket bucket_by_id
  Ensures-source_bucket Q has_buckets id w funded k =
      Ensures-if Q (has_buckets && not (is_empty (trim id))) _ _ w
        (λ named.
          Ensures-if_found Q _ _ _ w
            (λ b e. Ensures-pure Q _ w (
              k (SourceBucket.found b) (
                All-lookup (λ x. x.id) (λ x. pos 0 ≤ℤ x.remaining) b.id b w.store.buckets
                  funded.remainders (laws.buckets.first_ok _ w.store.buckets b e).1)))
            (λ gone. Ensures-pure Q _ w (k SourceBucket.missing tt)))
        (λ unnamed. Ensures-pure Q _ w (k SourceBucket.unattributed tt))

  Ensures-write_source :
      (Q : Unit {0} → World → Type 0) (source : SourceBucket) (x : ℤ) (now : Time)
      (a : CreditAccount) (d e : ℤ) (w : World)
      → IsBooked a d e w.store
      → ((w' : World) → IsBooked a d e w'.store → Q tt w')
      → Ensures Q (write_source env source x now w)
  unfolding write_source
  Ensures-write_source Q SourceBucket.unattributed x now a d e w h k = Ensures-pure Q tt w (k w h)
  Ensures-write_source Q SourceBucket.missing x now a d e w h k = Ensures-pure Q tt w (k w h)
  Ensures-write_source Q (SourceBucket.found b) x now a d e w h k =
      Ensures-update_bucket env.gorm laws Q _ w (k _ (IsBooked-buckets a d e w.store _ h))

  Ensures-take_back :
      (Q : CreditAccount → World → Type 0) (a : CreditAccount) (source : SourceBucket) (x : ℤ)
      (now : Time) (w : World)
      → pos 0 ≤ℤ x
      → IsBooked a (pos 0) (pos 0) w.store
      → ((a' : CreditAccount) (w' : World)
          → IsBooked a' (pos 0 +ℤ (pos 0 -ℤ x)) (pos 0) w'.store
          → Q a' w')
      → Ensures Q (take_back env a source x now w)
  unfolding take_back
  Ensures-take_back Q a source x now w nonneg h k =
      Ensures-if Q (ltb_ℤ (pos 0) x) _ _ w
        (λ positive. Ensures-bind Q _ _ w (
          Ensures-update_account env.gorm laws _ _ w (
            Ensures-bind Q _ _ _ (
              Ensures-write_source _ source x now (charged env a x now) _ _ _
                (IsBooked-saved_balance a _ (pos 0) (pos 0) (pos 0 -ℤ x) w.store refl
                  (sub64-add a.balance x) refl h)
                λ w' h'. Ensures-pure Q _ w' (k _ w' h')))))
        (λ nothing. Ensures-pure Q a w (
          k a w (
            IsBooked-congr a (pos 0) (pos 0 +ℤ (pos 0 -ℤ x)) (pos 0) (pos 0) w.store
              (unchanged (pos 0) x (zero_of_not_pos x nonneg nothing)) refl h)))

  claw_back-Kept :
      (has_buckets : Bool) (order : Order) (key : String) (original : CreditTransaction) (w : World)
      → IsConsistent w.store
      → IsFunded w.store
      → Ensures Kept (claw_back env has_buckets order key original w)
  unfolding claw_back
  claw_back-Kept has_buckets order key original w c funded =
      Ensures-if Kept (leb_ℤ original.amount (pos 0)) _ _ w (λ none_. Ensures-pure Kept _ w c)
        λ granted. Ensures-bind Kept _ _ w (
          Ensures-raise_if _ _ _ w λ owner. Ensures-bind Kept _ _ w (
            Ensures-account_by_id env.gorm laws _ _ w λ a named there. Ensures-bind Kept _ _ w (
              Ensures-source_bucket _ has_buckets _ w funded λ source has. Ensures-bind Kept _ _ w (
                Ensures-time_now env _ w λ now. Ensures-bind Kept _ _ _ (
                  Ensures-take_back _ a source _ now _
                    (clawback_amount-nonneg original.amount a source granted
                      (All-lookup (λ x. x.id) (λ x. pos 0 ≤ℤ x.balance) a.id a w.store.accounts
                        funded.balances there)
                      has)
                    (IsBooked-start a w.store c there)
                    λ a' w1 h1. Ensures-bind Kept _ _ w1 (
                      Ensures-new_credit_transaction env laws _ _ _ (pos 0) w1 h1 λ t w2 amount h2.
                        Ensures-pure Kept _ w2 (
                          IsBooked-end _ _ _ w2.store
                            (balanced_out (pos 0) (clawback_amount original.amount a source)) refl
                            h2)))))))

  clawback-Kept :
      (has_buckets : Bool) (order : Order) (execution : FulfillmentExecution) (w : World)
      → IsConsistent w.store
      → IsFunded w.store
      → Ensures Kept (clawback_fulfilled_credits env has_buckets order execution w)
  unfolding clawback_fulfilled_credits transaction_by_id transaction_by_idempotency_key
  clawback-Kept has_buckets order execution w c funded =
      Ensures-if Kept (is_empty (trim execution.result_ref)) _ _ w
        (λ none_. Ensures-pure Kept _ w c)
        λ delivered.
          Ensures-if_found Kept _ _ _ w (λ t e. Ensures-pure Kept _ w c)
            λ missing.
              Ensures-if_found Kept _ _ _ w (λ t e. claw_back-Kept has_buckets order _ t w c funded)
                λ gone. Ensures-pure Kept _ w c

  -- If GORM keeps its promises, a clawback that returns no error on consistent books leaves consistent
  -- books, provided that no balance and no remainder of a bucket was negative.
  pub clawback-IsConsistent :
      (has_buckets : Bool) (order : Order) (execution : FulfillmentExecution)
      (r : ℤ × Option CreditTransaction) (w w' : World)
      → IsConsistent w.store
      → IsFunded w.store
      → clawback_fulfilled_credits env has_buckets order execution w ≡ (ok r, w')
      → IsConsistent w'.store
  clawback-IsConsistent has_buckets order execution r w w' c funded ran =
      after Kept _ r w' (clawback-Kept has_buckets order execution w c funded) ran
