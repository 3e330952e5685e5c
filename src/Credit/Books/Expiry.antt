-- ===== src/Credit/Books/Expiry.antt =====
-- The books while buckets expire: `expireCreditBucket` and its loop over an account, and the shares that
-- are held and settled (internal/service/credit_bucket.go).
use walnut_billing.Prelude.{◌≡◌, refl, ◌∙◌, Bool, true, false, List, [], ◌∷◌, arith}
use walnut_billing.Prelude.Int.{ℤ, pos, ◌+ℤ◌, ◌-ℤ◌, ◌≤ℤ◌, ltb_ℤ}
use walnut_billing.Domain.{Time}
use walnut_billing.Domain.Credit.{CreditAccount, CreditBucket, ReservationStatus}
use walnut_billing.Repository.World.{Store, World, Env, CreditBucketAllocation}
use walnut_billing.Repository.Ensures.{
  Ensures, Ensures-bind, Ensures-pure, Ensures-if, Ensures-raise_if,
}
use walnut_billing.Repository.Credit.Rules.{
  IsGorm, Ensures-update_account, Ensures-update_bucket, Ensures-list_buckets, Ensures-bucket_by_id,
}
use walnut_billing.Credit.Bucket.{expired_amount_of}
use walnut_billing.Credit.Holding.{
  BucketExpiry, charge_expiry, expire_credit_bucket, expire_account_loop,
  expire_credit_buckets_for_account, hold_allocations, reserve_bucket_credits, settle_allocations,
  finalize_bucket_allocations,
}
use walnut_billing.Credit.Ledger.{CreditBucketExpiryResult}
use walnut_billing.Credit.Books.Amounts.{sub64-add, zero_of_not_pos, balanced_out, unchanged}
use walnut_billing.Credit.Books.Booked.{
  IsBooked, IsBooked-buckets, IsBooked-congr, IsBooked-saved_balance,
  Ensures-new_credit_transaction,
}

-- The expired amount is not negative.
pub expired_amount_of_nonneg :
    (a : CreditAccount) (b : CreditBucket) → pos 0 ≤ℤ expired_amount_of a b
unfolding expired_amount_of
expired_amount_of_nonneg a b = ground arith

module _ (env : Env) (laws : IsGorm env.gorm) where
  Ensures-charge_expiry :
      (Q : CreditAccount → World → Type 0) (a : CreditAccount) (x : ℤ) (now : Time) (d e : ℤ)
      (w : World)
      → pos 0 ≤ℤ x
      → IsBooked a d e w.store
      → ((a' : CreditAccount) (w' : World)
          → a'.id ≡ a.id
          → IsBooked a' (d +ℤ (pos 0 -ℤ x)) e w'.store
          → Q a' w')
      → Ensures Q (charge_expiry env a x now w)
  unfolding charge_expiry
  Ensures-charge_expiry Q a x now d e w nonneg h k =
      Ensures-if Q (ltb_ℤ (pos 0) x) _ _ w
        (λ positive. Ensures-bind Q _ _ w (
          Ensures-update_account env.gorm laws _ _ w (
            Ensures-pure Q _ _ (
              k _ _ refl (
                IsBooked-saved_balance a _ d e (pos 0 -ℤ x) w.store refl (sub64-add a.balance x)
                  refl h)))))
        (λ nothing. Ensures-pure Q a w (
          k a w refl (
            IsBooked-congr a d (d +ℤ (pos 0 -ℤ x)) e e w.store
              (unchanged d x (zero_of_not_pos x nonneg nothing)) refl h)))

  pub Ensures-expire_credit_bucket :
      (Q : BucketExpiry → World → Type 0) (a : CreditAccount) (b : CreditBucket) (now : Time)
      (d e : ℤ) (w : World)
      → IsBooked a d e w.store
      → ((x : BucketExpiry) (w' : World)
          → x.account.id ≡ a.id
          → IsBooked x.account d e w'.store
          → Q x w')
      → Ensures Q (expire_credit_bucket env a b now w)
  unfolding expire_credit_bucket
  Ensures-expire_credit_bucket Q a b now d e w h k =
      let x = expired_amount_of a b in
      Ensures-bind Q _ _ w (
        Ensures-charge_expiry _ a x now d e w (expired_amount_of_nonneg a b) h λ a' w1 same h1.
          Ensures-bind Q _ _ w1 (
            Ensures-update_bucket env.gorm laws _ _ w1 (
              Ensures-bind Q _ _ _ (
                Ensures-new_credit_transaction env laws _ _ (d +ℤ (pos 0 -ℤ x)) e _
                  (IsBooked-buckets a' _ e w1.store _ h1)
                  λ t w2 amount h2. Ensures-pure Q _ w2 (
                    k _ w2 same (IsBooked-congr a' _ d e e w2.store (balanced_out d x) refl h2))))))

  pub Ensures-expire_account_loop :
      (Q : CreditAccount × CreditBucketExpiryResult → World → Type 0) (a : CreditAccount)
      (now : Time) (found : CreditBucketExpiryResult) (bs : List CreditBucket) (d e : ℤ) (w : World)
      → IsBooked a d e w.store
      → ((a' : CreditAccount) (result : CreditBucketExpiryResult) (w' : World)
          → a'.id ≡ a.id
          → IsBooked a' d e w'.store
          → Q (a', result) w')
      → Ensures Q (expire_account_loop env a now found bs w)
  unfolding expire_account_loop
  Ensures-expire_account_loop Q a now found [] d e w h k = Ensures-pure Q _ w (k a found w refl h)
  Ensures-expire_account_loop Q a now found (b ∷ bs) d e w h k = Ensures-bind Q _ _ w (
      Ensures-expire_credit_bucket _ a b now d e w h λ x w1 same h1.
        Ensures-expire_account_loop Q x.account now _ bs d e w1 h1
          λ a' r w2 same' h2. k a' r w2 (same' ∙ same) h2)

  pub Ensures-expire_credit_buckets_for_account :
      (Q : CreditAccount × CreditBucketExpiryResult → World → Type 0) (has_buckets : Bool)
      (a : CreditAccount) (now : Time) (limit : ℤ) (d e : ℤ) (w : World)
      → IsBooked a d e w.store
      → ((a' : CreditAccount) (result : CreditBucketExpiryResult) (w' : World)
          → a'.id ≡ a.id
          → IsBooked a' d e w'.store
          → Q (a', result) w')
      → Ensures Q (expire_credit_buckets_for_account env has_buckets a now limit w)
  unfolding expire_credit_buckets_for_account
  Ensures-expire_credit_buckets_for_account Q false a now limit d e w h k =
      Ensures-pure Q _ w (k a _ w refl h)
  Ensures-expire_credit_buckets_for_account Q true a now limit d e w h k = Ensures-bind Q _ _ w (
      Ensures-list_buckets env.gorm laws _ _ w
        λ rows _. Ensures-expire_account_loop Q a now _ rows d e w h k)

  -- Shares that are held or settled change buckets alone.
  module _ (P : Store → Type 0)
      (bucket_free : (s : Store) (rows : List CreditBucket)
        → P s
        → P (record s { buckets = rows })) where
    Ensures-hold_allocations :
        (Q : Unit {0} → World → Type 0) (now : Time) (shares : List CreditBucketAllocation)
        (w : World)
        → P w.store
        → ((w' : World) → P w'.store → Q tt w')
        → Ensures Q (hold_allocations env now shares w)
    unfolding hold_allocations
    Ensures-hold_allocations Q now [] w h k = Ensures-pure Q tt w (k w h)
    Ensures-hold_allocations Q now (share ∷ rest) w h k = Ensures-bind Q _ _ w (
        Ensures-bucket_by_id env.gorm laws _ _ w λ b _ _. Ensures-bind Q _ _ w (
          Ensures-raise_if _ _ _ w λ enough. Ensures-bind Q _ _ w (
            Ensures-update_bucket env.gorm laws _ _ w
              (Ensures-hold_allocations Q now rest _ (bucket_free w.store _ h) k))))

    Ensures-settle_allocations :
        (Q : ℤ → World → Type 0) (final : ReservationStatus) (now : Time)
        (shares : List CreditBucketAllocation) (restored : ℤ) (w : World)
        → P w.store
        → ((x : ℤ) (w' : World) → P w'.store → Q x w')
        → Ensures Q (settle_allocations env final now restored shares w)
    unfolding settle_allocations
    Ensures-settle_allocations Q final now [] restored w h k = Ensures-pure Q _ w (k _ w h)
    Ensures-settle_allocations Q final now (share ∷ rest) restored w h k = Ensures-bind Q _ _ w (
        Ensures-bucket_by_id env.gorm laws _ _ w λ b _ _. Ensures-bind Q _ _ w (
          Ensures-raise_if _ _ _ w λ enough. Ensures-bind Q _ _ w (
            Ensures-update_bucket env.gorm laws _ _ w
              (Ensures-settle_allocations Q final now rest _ _ (bucket_free w.store _ h) k))))

    pub Ensures-finalize_bucket_allocations :
        (Q : ℤ → World → Type 0) (shares : List CreditBucketAllocation) (final : ReservationStatus)
        (now : Time) (w : World)
        → P w.store
        → ((x : ℤ) (w' : World) → P w'.store → Q x w')
        → Ensures Q (finalize_bucket_allocations env shares final now w)
    unfolding finalize_bucket_allocations
    Ensures-finalize_bucket_allocations Q shares final now w h k =
        Ensures-settle_allocations Q final now _ (pos 0) w h k

  pub Ensures-reserve_bucket_credits :
      (Q : CreditAccount × List CreditBucketAllocation → World → Type 0) (has_buckets : Bool)
      (a : CreditAccount) (amount : ℤ) (now : Time) (d e : ℤ) (w : World)
      → IsBooked a d e w.store
      → ((a' : CreditAccount) (shares : List CreditBucketAllocation) (w' : World)
          → a'.id ≡ a.id
          → IsBooked a' d e w'.store
          → Q (a', shares) w')
      → Ensures Q (reserve_bucket_credits env has_buckets a amount now w)
  unfolding reserve_bucket_credits
  Ensures-reserve_bucket_credits Q false a amount now d e w h k =
      Ensures-pure Q _ w (k a [] w refl h)
  Ensures-reserve_bucket_credits Q true a amount now d e w h k = Ensures-bind Q _ _ w (
      Ensures-expire_credit_buckets_for_account _ true a now (pos 0) d e w h λ a' _ w1 same h1.
        Ensures-bind Q _ _ w1 (
          Ensures-raise_if _ _ _ w1 λ enough. Ensures-bind Q _ _ w1 (
            Ensures-list_buckets env.gorm laws _ _ w1 λ rows _. Ensures-bind Q _ _ w1 (
              Ensures-hold_allocations (IsBooked a' d e) (IsBooked-buckets a' d e) _ now _ w1 h1
                λ w2 h2. Ensures-pure Q _ w2 (k a' _ w2 same h2)))))
