-- ===== src/Credit/Books/Granting.antt =====
-- The books during `Grant` of internal/service/credit.go.
use walnut_billing.Prelude.{String, ◌≡◌, refl, sym, Bool, true, false, Option, none, some}
use mathlib.Core.Path.{subst}
use walnut_billing.Prelude.Int.{ℤ, pos, ◌+ℤ◌}
use walnut_billing.Domain.{Time}
use walnut_billing.Domain.Credit.{CreditAccount, CreditBucket}
use walnut_billing.Repository.Credit.{account_by_user_id, transaction_by_idempotency_key}
use walnut_billing.Repository.Keeps.{Ensures-Keeps}
use walnut_billing.Credit.Replay.{replay_grant-Keeps}
use walnut_billing.Repository.World.{World, Env}
use walnut_billing.Repository.Ensures.{
  Ensures, Ensures-bind, Ensures-pure, Ensures-if_found, Ensures-time_now,
  Ensures-generate_entity_id,
}
use walnut_billing.Repository.Credit.Rules.{
  IsGorm, Ensures-update_account, Ensures-create_account, Ensures-create_bucket,
}
use walnut_billing.Credit.Ledger.{
  CreditGrantInput, ensure_credit_account, empty_account, open_account,
}
use walnut_billing.Credit.Grant.{new_bucket, store_bucket, apply_grant, grant_credits_with_repos}
use walnut_billing.Credit.Books.Amounts.{granted_out, add64_lem}
use walnut_billing.Credit.Books.Start.{Kept, IsBooked-start, IsBooked-end, added_account-IsBooked}
use walnut_billing.Credit.Books.{IsConsistent}
use walnut_billing.Credit.Books.Booked.{
  IsBooked, IsBooked-buckets, IsBooked-saved_balance, Ensures-new_credit_transaction,
}

module _ (env : Env) (laws : IsGorm env.gorm) where
  open_account-IsBooked :
      (Q : CreditAccount → World → Type 0) (user_id : String) (w : World)
      → IsConsistent w.store
      → ((a : CreditAccount) (w' : World) → IsBooked a (pos 0) (pos 0) w'.store → Q a w')
      → Ensures Q (open_account env user_id w)
  unfolding open_account
  open_account-IsBooked Q user_id w c k = Ensures-bind Q _ _ w (
      Ensures-generate_entity_id env _ _ w λ id. Ensures-bind Q _ _ _ (
        Ensures-time_now env _ _ λ now. Ensures-bind Q _ _ _ (
          Ensures-create_account env.gorm laws _ _ _ λ fresh. Ensures-pure Q _ _ (
            k _ _
              (added_account-IsBooked (empty_account id user_id now) w.store fresh refl refl c)))))

  -- The account of a user, found or opened at zero.
  pub Ensures-ensure_credit_account :
      (Q : CreditAccount → World → Type 0) (user_id : String) (w : World)
      → IsConsistent w.store
      → ((a : CreditAccount) (w' : World) → IsBooked a (pos 0) (pos 0) w'.store → Q a w')
      → Ensures Q (ensure_credit_account env user_id w)
  unfolding ensure_credit_account account_by_user_id
  Ensures-ensure_credit_account Q user_id w c k =
      Ensures-if_found Q _ _ _ w
        (λ a e.
          Ensures-pure Q a w
            (k a w (IsBooked-start a w.store c (laws.accounts.first_ok _ w.store.accounts a e).1)))
        (λ missing. open_account-IsBooked Q user_id w c k)

  new_bucket-IsBooked :
      (Q : Option CreditBucket → World → Type 0) (has_buckets : Bool) (a : CreditAccount)
      (input : CreditGrantInput) (key : String) (now : Time) (w : World)
      → ((b : Option CreditBucket) (w' : World) → w'.store ≡ w.store → Q b w')
      → Ensures Q (new_bucket env has_buckets a input key now w)
  unfolding new_bucket
  new_bucket-IsBooked Q false a input key now w k = Ensures-pure Q _ w (k none w refl)
  new_bucket-IsBooked Q true a input key now w k =
      Ensures-bind Q _ _ w
        (Ensures-generate_entity_id env _ _ w λ id. Ensures-pure Q _ _ (k _ _ refl))

  store_bucket-IsBooked :
      (Q : Option CreditBucket → World → Type 0) (b : Option CreditBucket) (id : String)
      (a : CreditAccount) (d e : ℤ) (w : World)
      → IsBooked a d e w.store
      → ((b : Option CreditBucket) (w' : World) → IsBooked a d e w'.store → Q b w')
      → Ensures Q (store_bucket env b id w)
  unfolding store_bucket
  store_bucket-IsBooked Q none id a d e w h k = Ensures-pure Q _ w (k none w h)
  store_bucket-IsBooked Q (some b) id a d e w h k = Ensures-bind Q _ _ w (
      Ensures-create_bucket env.gorm laws _ _ w
        λ fresh. Ensures-pure Q _ _ (k _ _ (IsBooked-buckets a d e w.store _ h)))

  apply_grant-Kept :
      (has_buckets : Bool) (input : CreditGrantInput) (key : String) (w : World)
      → IsConsistent w.store
      → Ensures Kept (apply_grant env has_buckets input key w)
  unfolding apply_grant
  apply_grant-Kept has_buckets input key w c = Ensures-bind Kept _ _ w (
      Ensures-ensure_credit_account _ _ w c λ a w1 h1. Ensures-bind Kept _ _ w1 (
        Ensures-time_now env _ w1 λ now. Ensures-bind Kept _ _ _ (
          Ensures-update_account env.gorm laws _ _ _ (
            Ensures-bind Kept _ _ _ (
              new_bucket-IsBooked _ has_buckets _ input key now _ λ b w2 same.
                Ensures-bind Kept _ _ w2 (
                  Ensures-new_credit_transaction env laws _ _ (pos 0 +ℤ input.amount) (pos 0) w2
                    (subst (IsBooked _ _ _) (sym same) (
                      IsBooked-saved_balance a _ (pos 0) (pos 0) input.amount w1.store refl
                        (add64_lem a.balance input.amount) refl h1))
                    λ t w3 amount h3. Ensures-bind Kept _ _ w3 (
                      store_bucket-IsBooked _ b _ _ _ _ w3 h3 λ b' w4 h4.
                        Ensures-pure Kept _ w4
                          (IsBooked-end _ _ _ w4.store (granted_out input.amount) refl h4))))))))

  pub grant_credits-Kept :
      (has_buckets : Bool) (input : CreditGrantInput) (w : World)
      → IsConsistent w.store
      → Ensures Kept (grant_credits_with_repos env has_buckets input w)
  unfolding grant_credits_with_repos transaction_by_idempotency_key
  grant_credits-Kept has_buckets input w c =
      Ensures-if_found Kept _ _ _ w
        (λ t e.
          Ensures-Keeps IsConsistent _ w (replay_grant-Keeps IsConsistent env has_buckets t) c)
        (λ missing. apply_grant-Kept has_buckets input _ w c)
