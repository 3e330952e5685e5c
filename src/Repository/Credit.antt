-- ===== src/Repository/Credit.antt =====
-- internal/repository/gorm_repo/credit.go: the wallet's repositories on GORM.
pub mod Rules
use walnut_billing.Prelude.{
  ℕ, suc, String, Bool, true, false, ◌&&◌, ◌||◌, Option, none, some, List, [], ◌∷◌, ltb, leb,
  nat_eq, if◌then◌else◌,
}
use walnut_billing.Prelude.Int.{ℤ, pos, ltb_ℤ}
use walnut_billing.Prelude.Text.{◌==◌, is_empty, text_lt}
use walnut_billing.Domain.{Time, User}
use walnut_billing.Domain.Credit.{
  CreditAccount, CreditBucket, CreditReservation, CreditTransaction, reservation_status_text,
  bucket_status_text, bucket_type_text,
}
use walnut_billing.Repository.Error.{GormError, Result, ok, err}
use walnut_billing.Repository.World.{Gorm}
use walnut_billing.Repository.Monad.{Action, read, read_all, write}

-- The new rows in place of a table's rows.
abbrev pub on_ok : {A B : Type 0} → (A → B) → Result GormError A → Result GormError B
on_ok f (ok a) = ok (f a)
on_ok f (err e) = err e

-- `Limit` and `Offset` are added to a query only when positive.
abbrev pub positive : ℤ → Option ℕ
positive (pos (suc n)) = some (suc n)
positive _ = none

-- A condition that is added to a query only for a non-empty value.
abbrev pub unless_empty : String → String → Bool
unless_empty wanted value = is_empty wanted || (value == wanted)

-- `CreditBucketQuery` of internal/repository/repository.go
pub record CreditBucketQuery : Type 0 where
  pub account_id : String
  pub user_id : String
  pub type : String
  pub status : String
  pub source_order_no : String
  pub source_transaction_id : String
  pub active_at : Option Time
  pub expires_at_or_before : Option Time
  pub positive_remaining : Bool
  pub limit : ℤ
  pub offset : ℤ

-- `CreditReservationQuery` of internal/repository/repository.go
pub record CreditReservationQuery : Type 0 where
  pub user_id : String
  pub feature_id : String
  pub operation : String
  pub execution_id : String
  pub status : String
  pub limit : ℤ
  pub offset : ℤ

-- `expires_at IS NULL OR expires_at > at`
abbrev pub active_at_matches : Option Time → Option Time → Bool
active_at_matches none expires = true
active_at_matches (some at) none = true
active_at_matches (some at) (some expires) = ltb at expires

-- `expires_at IS NOT NULL AND expires_at <= at`
abbrev pub expired_matches : Option Time → Option Time → Bool
expired_matches none expires = true
expired_matches (some at) none = false
expired_matches (some at) (some expires) = leb expires at

-- The conditions of `CreditBucketRepo.List`.
unfoldable pub bucket_matches : CreditBucketQuery → CreditBucket → Bool
unfolding is_empty bucket_status_text bucket_type_text
bucket_matches q b =
    unless_empty q.account_id b.account_id
    && unless_empty q.user_id b.user_id
    && unless_empty q.type (bucket_type_text b.type)
    && unless_empty q.status (bucket_status_text b.status)
    && unless_empty q.source_order_no b.source_order_no
    && unless_empty q.source_transaction_id b.source_transaction_id
    && active_at_matches q.active_at b.expires_at
    && expired_matches q.expires_at_or_before b.expires_at
    && (if q.positive_remaining then ltb_ℤ (pos 0) b.remaining else true)

abbrev pub expiry_before : Option Time → Option Time → Bool → Bool
expiry_before none none next = next
expiry_before none (some d) next = false
expiry_before (some c) none next = true
expiry_before (some c) (some d) next = ltb c d || (nat_eq c d && next)

-- The order of `CreditBucketRepo.List`: open-ended buckets last, then by expiry, creation and id.
unfoldable pub bucket_order : CreditBucket → CreditBucket → Bool
unfolding text_lt
bucket_order a b =
    expiry_before a.expires_at b.expires_at
      (ltb a.created_at b.created_at || (nat_eq a.created_at b.created_at && text_lt a.id b.id))

-- The conditions of `CreditReservationRepo.List`.
unfoldable pub reservation_matches : CreditReservationQuery → CreditReservation → Bool
unfolding is_empty reservation_status_text
reservation_matches q r =
    unless_empty q.user_id r.user_id
    && unless_empty q.feature_id r.feature_id
    && unless_empty q.operation r.operation
    && unless_empty q.execution_id r.execution_id
    && unless_empty q.status (reservation_status_text r.status)

-- `reservation_id IN ids`
unfoldable pub listed_in : List String → String → Bool
listed_in [] k = false
listed_in (i ∷ ids) k = (i == k) || listed_in ids k

module _ (g : Gorm) where
  unfoldable pub user_by_id : String → Action User
  user_by_id id = read (λ s. g.users.first (λ u. u.id == id) s.users)

  unfoldable pub create_account : CreditAccount → Action (Unit {0})
  create_account a =
      write (λ s. on_ok (λ rows. record s { accounts = rows }) (g.accounts.create a s.accounts))

  unfoldable pub account_by_id : String → Action CreditAccount
  account_by_id id = read (λ s. g.accounts.first (λ a. a.id == id) s.accounts)

  unfoldable pub account_by_user_id : String → Action CreditAccount
  account_by_user_id user_id = read (λ s. g.accounts.first (λ a. a.user_id == user_id) s.accounts)

  unfoldable pub update_account : CreditAccount → Action (Unit {0})
  update_account a =
      write (λ s. on_ok (λ rows. record s { accounts = rows }) (g.accounts.save a s.accounts))

  unfoldable pub create_bucket : CreditBucket → Action (Unit {0})
  create_bucket b =
      write (λ s. on_ok (λ rows. record s { buckets = rows }) (g.buckets.create b s.buckets))

  unfoldable pub bucket_by_id : String → Action CreditBucket
  bucket_by_id id = read (λ s. g.buckets.first (λ b. b.id == id) s.buckets)

  unfoldable pub list_buckets : CreditBucketQuery → Action (List CreditBucket)
  list_buckets q = read_all λ s.
      g.buckets.find (bucket_matches q) bucket_order (positive q.limit) (positive q.offset)
        s.buckets

  unfoldable pub update_bucket : CreditBucket → Action (Unit {0})
  update_bucket b =
      write (λ s. on_ok (λ rows. record s { buckets = rows }) (g.buckets.save b s.buckets))

  unfoldable pub create_reservation : CreditReservation → Action (Unit {0})
  create_reservation r =
      write λ s.
        on_ok (λ rows. record s { reservations = rows }) (g.reservations.create r s.reservations)

  unfoldable pub reservation_by_id : String → Action CreditReservation
  reservation_by_id id = read (λ s. g.reservations.first (λ r. r.id == id) s.reservations)

  unfoldable pub reservation_by_idempotency_key : String → Action CreditReservation
  reservation_by_idempotency_key key =
      read (λ s. g.reservations.first (λ r. r.idempotency_key == key) s.reservations)

  -- Newest first.
  unfoldable pub list_reservations : CreditReservationQuery → Action (List CreditReservation)
  list_reservations q = read_all λ s.
      g.reservations.find (reservation_matches q) (λ a b. ltb b.created_at a.created_at)
        (positive q.limit) (positive q.offset) s.reservations

  unfoldable pub update_reservation : CreditReservation → Action (Unit {0})
  update_reservation r =
      write
        λ s. on_ok (λ rows. record s { reservations = rows }) (g.reservations.save r s.reservations)

  unfoldable pub create_transaction : CreditTransaction → Action (Unit {0})
  create_transaction t =
      write λ s.
        on_ok (λ rows. record s { transactions = rows }) (g.transactions.create t s.transactions)

  unfoldable pub transaction_by_id : String → Action CreditTransaction
  transaction_by_id id = read (λ s. g.transactions.first (λ t. t.id == id) s.transactions)

  unfoldable pub transaction_by_idempotency_key : String → Action CreditTransaction
  transaction_by_idempotency_key key =
      read (λ s. g.transactions.first (λ t. t.idempotency_key == key) s.transactions)

  unfoldable pub list_transactions_by_user : String → ℤ → ℤ → Action (List CreditTransaction)
  list_transactions_by_user user_id limit offset = read_all λ s.
      g.transactions.find (λ t. t.user_id == user_id) (λ a b. ltb b.created_at a.created_at)
        (positive limit) (positive offset) s.transactions

  -- No query is made for an empty list.
  unfoldable pub list_transactions_by_reservation_ids :
      List String → Action (List CreditTransaction)
  list_transactions_by_reservation_ids [] = read_all (λ s. ok [])
  list_transactions_by_reservation_ids (i ∷ ids) = read_all λ s.
      g.transactions.find (λ t. listed_in (i ∷ ids) t.reservation_id)
        (λ a b. ltb a.created_at b.created_at) none none s.transactions
