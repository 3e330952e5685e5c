-- ===== src/Credit/Books/Booked.antt =====
-- The state of an operation between two writes: the account that it holds, as the table has it, and
-- what the books are off by.
use walnut_billing.Prelude.{◌≡◌, refl, sym, ap, ◌∙◌, List, true, false, some}
use mathlib.Core.Path.{subst}
use walnut_billing.Prelude.Int.{ℤ, pos, ◌+ℤ◌, ◌-ℤ◌, int_laws}
use walnut_billing.Prelude.Word.{wrap64, IsInt64, wrap64_id, wrap64-IsInt64}
use walnut_billing.Domain.Credit.{
  CreditAccount, CreditBucket, CreditReservation, CreditTransaction, is_pending,
}
use walnut_billing.Repository.Table.{lookup}
use walnut_billing.Repository.World.{Store, World, Env}
use walnut_billing.Repository.Ensures.{
  Ensures, Ensures-bind, Ensures-pure, Ensures-generate_entity_id,
}
use walnut_billing.Repository.Credit.Rules.{IsGorm, Ensures-create_transaction}
use walnut_billing.Credit.Ledger.{CreditTransactionInput, transaction_of, new_credit_transaction}
use walnut_billing.Credit.Books.Steps.{
  IsOff, IsOff-congr, IsSynced, saved_account, saved_account-IsOff, saved_account-IsSynced,
}
use walnut_billing.Credit.Books.Rows.{
  added_transaction-IsOff, added_reservation, added_reservation-IsOff, saved_reservation,
  saved_reservation-IsOff,
}

pub record IsBooked (a : CreditAccount) (d e : ℤ) (s : Store) : Type 0 where
  pub off : IsOff a.id d e s
  pub sync : IsSynced a s

-- The buckets have no part in the books.
pub IsBooked-buckets :
    (a : CreditAccount) (d e : ℤ) (s : Store) (rows : List CreditBucket)
    → IsBooked a d e s
    → IsBooked a d e (record s { buckets = rows })
IsBooked-buckets a d e s rows h = record {
  off = record { balanced = h.off.balanced; held = h.off.held };
  sync = record { balance = h.sync.balance; reserved = h.sync.reserved };
}

pub IsBooked-congr :
    (a : CreditAccount) (d d' e e' : ℤ) (s : Store)
    → wrap64 d ≡ wrap64 d'
    → wrap64 e ≡ wrap64 e'
    → IsBooked a d e s
    → IsBooked a d' e' s
IsBooked-congr a d d' e e' s hd he h = record {
  off = IsOff-congr a.id d d' e e' s hd he h.off;
  sync = h.sync;
}

-- The balance of a booked account is a value of 64 bits.
pub IsBooked-balance :
    (a : CreditAccount) (d e : ℤ) (s : Store) → IsBooked a d e s → wrap64 a.balance ≡ a.balance
IsBooked-balance a d e s h =
    wrap64_id a.balance
      (subst IsInt64 (sym (h.off.balanced a.id) ∙ h.sync.balance) (wrap64-IsInt64 _))

pub IsBooked-reserved :
    (a : CreditAccount) (d e : ℤ) (s : Store) → IsBooked a d e s → wrap64 a.reserved ≡ a.reserved
IsBooked-reserved a d e s h =
    wrap64_id a.reserved
      (subst IsInt64 (sym (h.off.held a.id) ∙ h.sync.reserved) (wrap64-IsInt64 _))

-- Saving the account with its balance changed by `x` and its reserved amount by `y`.
pub IsBooked-saved :
    (a a' : CreditAccount) (d e x y : ℤ) (s : Store)
    → a'.id ≡ a.id
    → a'.balance ≡ wrap64 (a.balance +ℤ x)
    → a'.reserved ≡ wrap64 (a.reserved +ℤ y)
    → IsBooked a d e s
    → IsBooked a' (d +ℤ x) (e +ℤ y) (saved_account a' s)
IsBooked-saved a a' d e x y s same hb hr h = record {
  off = saved_account-IsOff a a' d e x y s h.sync same hb hr h.off;
  sync = saved_account-IsSynced a' s;
}

add_pos_zero : (x : ℤ) → x +ℤ pos 0 ≡ x
add_pos_zero x = omega int_laws

pub balance-add_zero :
    (a : CreditAccount) (d e : ℤ) (s : Store)
    → IsBooked a d e s
    → a.balance ≡ wrap64 (a.balance +ℤ pos 0)
balance-add_zero a d e s h = sym (ap wrap64 (add_pos_zero a.balance) ∙ IsBooked-balance a d e s h)

pub reserved-add_zero :
    (a : CreditAccount) (d e : ℤ) (s : Store)
    → IsBooked a d e s
    → a.reserved ≡ wrap64 (a.reserved +ℤ pos 0)
reserved-add_zero a d e s h =
    sym (ap wrap64 (add_pos_zero a.reserved) ∙ IsBooked-reserved a d e s h)

-- Saving the account with its balance alone changed.
pub IsBooked-saved_balance :
    (a a' : CreditAccount) (d e x : ℤ) (s : Store)
    → a'.id ≡ a.id
    → a'.balance ≡ wrap64 (a.balance +ℤ x)
    → a'.reserved ≡ a.reserved
    → IsBooked a d e s
    → IsBooked a' (d +ℤ x) e (saved_account a' s)
IsBooked-saved_balance a a' d e x s same hb hr h =
    IsBooked-congr a' (d +ℤ x) (d +ℤ x) (e +ℤ pos 0) e (saved_account a' s) refl
      (ap wrap64 (add_pos_zero e))
      (IsBooked-saved a a' d e x (pos 0) s same hb (hr ∙ reserved-add_zero a d e s h) h)

-- A new pending reservation of the account.
pub IsBooked-added_reservation :
    (a : CreditAccount) (d e : ℤ) (r : CreditReservation) (s : Store)
    → r.account_id ≡ a.id
    → is_pending r.status ≡ true
    → IsBooked a d e s
    → IsBooked a d (e -ℤ r.amount) (added_reservation r s)
IsBooked-added_reservation a d e r s same pending h = record {
  off = added_reservation-IsOff a.id d e r s same pending h.off;
  sync = record { balance = h.sync.balance; reserved = h.sync.reserved };
}

-- A pending reservation of the account that is no longer pending.
pub IsBooked-saved_reservation :
    (a : CreditAccount) (d e : ℤ) (old r : CreditReservation) (s : Store)
    → lookup (λ x. x.id) old.id s.reservations ≡ some old
    → old.account_id ≡ a.id
    → is_pending old.status ≡ true
    → r.id ≡ old.id
    → is_pending r.status ≡ false
    → IsBooked a d e s
    → IsBooked a d (e +ℤ old.amount) (saved_reservation r s)
IsBooked-saved_reservation a d e old r s found same pending id done h = record {
  off = saved_reservation-IsOff a.id d e old r s found same pending id done h.off;
  sync = record { balance = h.sync.balance; reserved = h.sync.reserved };
}

module _ (env : Env) (laws : IsGorm env.gorm) where
  -- A new ledger row for the account.
  pub Ensures-new_credit_transaction :
      (Q : CreditTransaction → World → Type 0) (input : CreditTransactionInput) (d e : ℤ)
      (w : World)
      → IsBooked input.account d e w.store
      → ((t : CreditTransaction) (w' : World)
          → t.amount ≡ input.amount
          → IsBooked input.account (d -ℤ input.amount) e w'.store
          → Q t w')
      → Ensures Q (new_credit_transaction env input w)
  unfolding new_credit_transaction transaction_of
  Ensures-new_credit_transaction Q input d e w h k = Ensures-bind Q _ _ w (
      Ensures-generate_entity_id env _ _ w λ id.
        let t = transaction_of id input in
        Ensures-bind Q _ _ _ (
          Ensures-create_transaction env.gorm laws _ t _ λ fresh. Ensures-pure Q t _ (
            k t _ refl (record {
              off = added_transaction-IsOff input.account.id d e t w.store refl h.off;
              sync = record { balance = h.sync.balance; reserved = h.sync.reserved };
            }))))
