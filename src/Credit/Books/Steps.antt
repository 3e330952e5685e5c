-- ===== src/Credit/Books/Steps.antt =====
-- The books between two writes of an operation: one account is off by known amounts, and each write
-- changes them.
use walnut_billing.Prelude.{
  String, ◌≡◌, refl, sym, ap, ◌∙◌, true, false, some, inl, inr, Bool-cases, arith, if◌then◌else◌,
}
use mathlib.Core.Path.{subst}
use walnut_billing.Prelude.Int.{ℤ, pos, ◌+ℤ◌, int_laws}
use walnut_billing.Prelude.Word.{wrap64, wrap64-add_left, wrap64-add_right}
use walnut_billing.Prelude.Text.{◌==◌, eq_iff}
use walnut_billing.Domain.Credit.{CreditAccount}
use walnut_billing.Repository.Table.{lookup, upsert}
use walnut_billing.Repository.Table.Lookup.{lookup-upsert}
use walnut_billing.Repository.World.{Store}
use walnut_billing.Credit.Books.{balance_of, reserved_of, ledger_sum, held_sum, IsConsistent}

-- `d` at the account `k`, zero elsewhere.
abbrev pub at : String → String → ℤ → ℤ
at k j d = if k == j then d else pos 0

-- The account `k` is off by `d` in its balance and by `e` in its reserved amount.
pub record IsOff (k : String) (d e : ℤ) (s : Store) : Type 0 where
  pub balanced :
      (j : String) → balance_of j s.accounts ≡ wrap64 (ledger_sum j s.transactions +ℤ at k j d)
  pub held :
      (j : String) → reserved_of j s.accounts ≡ wrap64 (held_sum j s.reservations +ℤ at k j e)

add_zero : (a : ℤ) → a +ℤ pos 0 ≡ a
add_zero a = omega int_laws

at_zero : (k j : String) → at k j (pos 0) ≡ pos 0
at_zero k j = ground arith

pub IsOff-start : (k : String) (s : Store) → IsConsistent s → IsOff k (pos 0) (pos 0) s
IsOff-start k s c = record {
  balanced = λ j. rw (at_zero k j, add_zero) (c.balanced j);
  held = λ j. rw (at_zero k j, add_zero) (c.held j);
}

-- Amounts that 64 bits do not tell apart.
wrap64-at :
    (k j : String) (x d d' : ℤ)
    → wrap64 d ≡ wrap64 d'
    → wrap64 (x +ℤ at k j d) ≡ wrap64 (x +ℤ at k j d')
wrap64-at k j x d d' h = elim (Bool-cases (k == j)) [
  | inl same ↦
      rw same (sym (wrap64-add_right x d) ∙ ap (λ t. wrap64 (x +ℤ t)) h ∙ wrap64-add_right x d')
  | inr other ↦ rw other refl
]

pub IsOff-congr :
    (k : String) (d d' e e' : ℤ) (s : Store)
    → wrap64 d ≡ wrap64 d'
    → wrap64 e ≡ wrap64 e'
    → IsOff k d e s
    → IsOff k d' e' s
IsOff-congr k d d' e e' s hd he off = record {
  balanced = λ j. off.balanced j ∙ wrap64-at k j _ d d' hd;
  held = λ j. off.held j ∙ wrap64-at k j _ e e' he;
}

pub IsOff-end :
    (k : String) (d e : ℤ) (s : Store)
    → wrap64 d ≡ wrap64 (pos 0)
    → wrap64 e ≡ wrap64 (pos 0)
    → IsOff k d e s
    → IsConsistent s
IsOff-end k d e s hd he off =
    let off' = IsOff-congr k d (pos 0) e (pos 0) s hd he off in
    record {
      balanced = λ j. rw (at_zero k j, add_zero) at (off'.balanced j);
      held = λ j. rw (at_zero k j, add_zero) at (off'.held j);
    }

at_add : (k j : String) (x d y : ℤ) → (k == j) ≡ true → x +ℤ at k j (d +ℤ y) ≡ x +ℤ at k j d +ℤ y
at_add k j x d y same = rw same (omega int_laws)

-- One field of the account after a change by `x`.
shifted :
    (k j : String) (sum d x old new : ℤ)
    → (k == j) ≡ true
    → old ≡ wrap64 (sum +ℤ at k j d)
    → new ≡ wrap64 (old +ℤ x)
    → new ≡ wrap64 (sum +ℤ at k j (d +ℤ x))
shifted k j sum d x old new same ho hn =
    hn
    ∙ ap (λ t. wrap64 (t +ℤ x)) ho
    ∙ wrap64-add_left (sum +ℤ at k j d) x
    ∙ ap wrap64 (sym (at_add k j sum d x same))

unshifted :
    (k j : String) (sum d x old : ℤ)
    → (k == j) ≡ false
    → old ≡ wrap64 (sum +ℤ at k j d)
    → old ≡ wrap64 (sum +ℤ at k j (d +ℤ x))
unshifted k j sum d x old other h = rw other (rw other at h)

-- The account as the operation holds it is the account of the table.
pub record IsSynced (a : CreditAccount) (s : Store) : Type 0 where
  pub balance : balance_of a.id s.accounts ≡ a.balance
  pub reserved : reserved_of a.id s.accounts ≡ a.reserved

pub lookup-IsSynced :
    (a : CreditAccount) (s : Store) → lookup (λ x. x.id) a.id s.accounts ≡ some a → IsSynced a s
lookup-IsSynced a s h = record { balance = rw h refl; reserved = rw h refl }

abbrev pub saved_account : CreditAccount → Store → Store
saved_account a s = record s { accounts = upsert (λ x. x.id) a s.accounts }

balance_of-saved :
    (j : String) (a : CreditAccount) (s : Store)
    → balance_of j (saved_account a s).accounts
      ≡ (if a.id == j then a.balance else balance_of j s.accounts)
balance_of-saved j a s =
    rw (lookup-upsert (λ (x : CreditAccount). x.id) j a s.accounts)
      (elim (Bool-cases (a.id == j)) [ inl here ↦ rw here refl | inr there ↦ rw there refl ])

reserved_of-saved :
    (j : String) (a : CreditAccount) (s : Store)
    → reserved_of j (saved_account a s).accounts
      ≡ (if a.id == j then a.reserved else reserved_of j s.accounts)
reserved_of-saved j a s =
    rw (lookup-upsert (λ (x : CreditAccount). x.id) j a s.accounts)
      (elim (Bool-cases (a.id == j)) [ inl here ↦ rw here refl | inr there ↦ rw there refl ])

pub saved_account-IsSynced : (a : CreditAccount) (s : Store) → IsSynced a (saved_account a s)
saved_account-IsSynced a s = record {
  balance = balance_of-saved a.id a s ∙ rw ((eq_iff a.id a.id).1 refl) refl;
  reserved = reserved_of-saved a.id a s ∙ rw ((eq_iff a.id a.id).1 refl) refl;
}

-- A field of the accounts after the account `k` is saved with it changed by `x`.
saved_field :
    (k j : String) (sum d x was own new : ℤ) (here : k ≡ j → was ≡ own)
    → was ≡ wrap64 (sum +ℤ at k j d)
    → new ≡ wrap64 (own +ℤ x)
    → (if k == j then new else was) ≡ wrap64 (sum +ℤ at k j (d +ℤ x))
saved_field k j sum d x was own new here hw hn = elim (Bool-cases (k == j)) [
  | inl same ↦
      subst (λ b. (if b then new else was) ≡ wrap64 (sum +ℤ at k j (d +ℤ x))) (sym same)
        (shifted k j sum d x own new same (sym (here ((eq_iff k j).0 same)) ∙ hw) hn)
  | inr other ↦
      subst (λ b. (if b then new else was) ≡ wrap64 (sum +ℤ at k j (d +ℤ x))) (sym other)
        (unshifted k j sum d x was other hw)
]

-- Saving the account with its balance changed by `x` and its reserved amount by `y`.
pub saved_account-IsOff :
    (a a' : CreditAccount) (d e x y : ℤ) (s : Store)
    → IsSynced a s
    → a'.id ≡ a.id
    → a'.balance ≡ wrap64 (a.balance +ℤ x)
    → a'.reserved ≡ wrap64 (a.reserved +ℤ y)
    → IsOff a.id d e s
    → IsOff a'.id (d +ℤ x) (e +ℤ y) (saved_account a' s)
saved_account-IsOff a a' d e x y s sync same hb hr off = record {
  balanced = λ j.
      balance_of-saved j a' s
      ∙ rw same (
          saved_field a.id j (ledger_sum j s.transactions) d x (balance_of j s.accounts) a.balance
            a'.balance (λ p. ap (λ k. balance_of k s.accounts) (sym p) ∙ sync.balance)
            (off.balanced j) hb);
  held = λ j.
      reserved_of-saved j a' s
      ∙ rw same (
          saved_field a.id j (held_sum j s.reservations) e y (reserved_of j s.accounts) a.reserved
            a'.reserved (λ p. ap (λ k. reserved_of k s.accounts) (sym p) ∙ sync.reserved)
            (off.held j) hr);
}
