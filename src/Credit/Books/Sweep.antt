-- ===== src/Credit/Books/Sweep.antt =====
-- The books during `expireCreditBucketsWithRepos` of internal/service/credit_bucket.go, with its cache of
-- accounts.
use walnut_billing.Prelude.{
  String, ◌≡◌, refl, ◌∙◌, Bool, true, false, Option, none, some, List, [], ◌∷◌, inl, inr,
  Bool-cases,
}
use mathlib.Core.Path.{subst}
use walnut_billing.Prelude.Int.{ℤ, pos, ltb_ℤ}
use walnut_billing.Prelude.Text.{◌==◌, eq_iff}
use walnut_billing.Domain.{Time}
use walnut_billing.Domain.Credit.{CreditAccount, CreditBucket}
use walnut_billing.Repository.Table.{lookup, upsert}
use walnut_billing.Repository.Table.Lookup.{lookup-upsert}
use walnut_billing.Repository.World.{Store, World, Env}
use walnut_billing.Repository.Ensures.{
  Ensures, Ensures-mono, Ensures-and, Ensures-bind, Ensures-pure, Ensures-if,
  Ensures-generate_entity_id,
}
use walnut_billing.Repository.Credit.Rules.{
  IsGorm, Ensures-update_account, Ensures-update_bucket, Ensures-list_buckets,
  Ensures-account_by_id, Ensures-create_transaction,
}
use walnut_billing.Credit.Bucket.{expired_amount_of, cached_account}
use walnut_billing.Credit.Holding.{
  charge_expiry, expire_credit_bucket, cached_or_read, expire_loop,
  expire_credit_buckets_with_repos,
}
use walnut_billing.Credit.Ledger.{CreditBucketExpiryResult, new_credit_transaction}
use walnut_billing.Credit.Books.{IsConsistent}
use walnut_billing.Credit.Books.Steps.{IsSynced, IsOff-start}
use walnut_billing.Credit.Books.Booked.{IsBooked}
use walnut_billing.Credit.Books.Start.{Kept, IsBooked-start, IsBooked-end}
use walnut_billing.Credit.Books.Expiry.{Ensures-expire_credit_bucket}

-- The accounts but `k` are as they were.
abbrev OthersStay : String → Store → Store → Type 0
OthersStay k before s =
    (j : String)
    → (k == j) ≡ false
    → lookup (λ x. x.id) j s.accounts ≡ lookup (λ x. x.id) j before.accounts

OthersStay-saved :
    (a : CreditAccount) (before s : Store)
    → OthersStay a.id before s
    → OthersStay a.id before (record s { accounts = upsert (λ x. x.id) a s.accounts })
OthersStay-saved a before s h j other =
    rw (lookup-upsert (λ (x : CreditAccount). x.id) j a s.accounts) (rw other (h j other))

-- The accounts that the sweep holds are those of the table.
abbrev IsCache : List (String × CreditAccount) → Store → Type 0
IsCache cache s =
    (k : String) (a : CreditAccount) → cached_account k cache ≡ some a → (a.id ≡ k) × IsSynced a s

IsSynced-OthersStay :
    (k : String) (a : CreditAccount) (before s : Store)
    → (k == a.id) ≡ false
    → OthersStay k before s
    → IsSynced a before
    → IsSynced a s
IsSynced-OthersStay k a before s other stay sync = record {
  balance = rw (stay a.id other) sync.balance;
  reserved = rw (stay a.id other) sync.reserved;
}

IsCache-cons :
    (k : String) (a : CreditAccount) (cache : List (String × CreditAccount)) (before s : Store)
    → a.id ≡ k
    → IsSynced a s
    → OthersStay k before s
    → IsCache cache before
    → IsCache ((k, a) ∷ cache) s
unfolding cached_account
IsCache-cons k a cache before s id sync stay held j b found = elim (Bool-cases (k == j)) [
  | inl here ↦
      let same : a ≡ b = some_inj a b (rw here at found) in
      subst (λ x. (x.id ≡ j) × IsSynced x s) same (id ∙ (eq_iff k j).0 here, sync)
  | inr there ↦
      let (id', sync') = held j b (rw there at found) in
      (id', IsSynced-OthersStay k b before s (rw id' there) stay sync')
]
  where
    some_inj : (u v : CreditAccount) → some u ≡ some v → u ≡ v
    some_inj u v h = cc

module _ (env : Env) (laws : IsGorm env.gorm) where
  charge_expiry-OthersStay :
      (a : CreditAccount) (x : ℤ) (now : Time) (before : Store) (w : World)
      → OthersStay a.id before w.store
      → Ensures (λ a' w'. OthersStay a.id before w'.store) (charge_expiry env a x now w)
  unfolding charge_expiry
  charge_expiry-OthersStay a x now before w h =
      Ensures-if _ (ltb_ℤ (pos 0) x) _ _ w
        (λ positive. Ensures-bind _ _ _ w (
          Ensures-update_account env.gorm laws _ _ w (
            Ensures-pure _ _ _
              (OthersStay-saved (record a { balance = _; updated_at = now }) before w.store h))))
        (λ nothing. Ensures-pure _ a w h)

  expire_credit_bucket-OthersStay :
      (a : CreditAccount) (b : CreditBucket) (now : Time) (w : World)
      → Ensures (λ x w'. OthersStay a.id w.store w'.store) (expire_credit_bucket env a b now w)
  unfolding expire_credit_bucket new_credit_transaction
  expire_credit_bucket-OthersStay a b now w = Ensures-bind _ _ _ w (
      Ensures-mono _ _ _
        (λ a' w1 h1. Ensures-bind _ _ _ w1 (
          Ensures-update_bucket env.gorm laws _ _ w1 (
            Ensures-bind _ _ _ _ (
              Ensures-bind _ _ _ _ (
                Ensures-generate_entity_id env _ _ _ λ id. Ensures-bind _ _ _ _ (
                  Ensures-create_transaction env.gorm laws _ _ _
                    λ fresh. Ensures-pure _ _ _ (Ensures-pure _ _ _ h1)))))))
        (charge_expiry-OthersStay a (expired_amount_of a b) now w.store w (λ j other. refl)))

  -- The account of a bucket, as the table has it.
  Ensures-cached_or_read :
      (Q : CreditAccount → World → Type 0) (id : String) (found : Option CreditAccount) (w : World)
      → IsConsistent w.store
      → ((a : CreditAccount) → found ≡ some a → (a.id ≡ id) × IsSynced a w.store)
      → ((a : CreditAccount) → a.id ≡ id → IsBooked a (pos 0) (pos 0) w.store → Q a w)
      → Ensures Q (cached_or_read env id found w)
  unfolding cached_or_read
  Ensures-cached_or_read Q id none w c held k =
      Ensures-account_by_id env.gorm laws Q id w
        λ a same there. k a same (IsBooked-start a w.store c there)
  Ensures-cached_or_read Q id (some a) w c held k =
      let (same, sync) = held a refl in
      Ensures-pure Q a w (k a same (record { off = IsOff-start a.id w.store c; sync = sync }))

  expire_loop-Kept :
      (cache : List (String × CreditAccount)) (now : Time) (result : CreditBucketExpiryResult)
      (bs : List CreditBucket) (w : World)
      → IsConsistent w.store
      → IsCache cache w.store
      → Ensures Kept (expire_loop env cache now result bs w)
  unfolding expire_loop
  expire_loop-Kept cache now result [] w c held = Ensures-pure Kept _ w c
  expire_loop-Kept cache now result (b ∷ bs) w c held = Ensures-bind Kept _ _ w (
      Ensures-cached_or_read _ b.account_id _ w c (held b.account_id) λ a id h.
        Ensures-bind Kept _ _ w (
          Ensures-mono _ _ _
            (λ x w1 ((same, h1), stay).
              expire_loop-Kept ((b.account_id, x.account) ∷ cache) now _ bs w1
                (IsBooked-end x.account (pos 0) (pos 0) w1.store refl refl h1)
                (IsCache-cons b.account_id x.account cache w.store w1.store (same ∙ id) h1.sync
                  (subst (λ k. OthersStay k w.store w1.store) id stay) held))
            (Ensures-and _ _ _
              (Ensures-expire_credit_bucket env laws
                (λ x w'. (x.account.id ≡ a.id) × IsBooked x.account (pos 0) (pos 0) w'.store) a b
                now (pos 0) (pos 0) w h (λ x w' same h1. (same, h1)))
              (expire_credit_bucket-OthersStay a b now w))))

  pub expire_credit_buckets-Kept :
      (has_buckets : Bool) (now : Time) (limit : ℤ) (account_id : String) (w : World)
      → IsConsistent w.store
      → Ensures Kept (expire_credit_buckets_with_repos env has_buckets now limit account_id w)
  unfolding expire_credit_buckets_with_repos cached_account
  expire_credit_buckets-Kept false now limit account_id w c = Ensures-pure Kept _ w c
  expire_credit_buckets-Kept true now limit account_id w c = Ensures-bind Kept _ _ w (
      Ensures-list_buckets env.gorm laws _ _ w
        λ rows _. expire_loop-Kept [] now _ rows w c (λ k a none_found. absurd cc))
