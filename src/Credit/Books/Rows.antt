-- ===== src/Credit/Books/Rows.antt =====
-- The books after a row of the ledger, of the reservations or of the accounts is written.
use walnut_billing.Prelude.{
  String, ◌≡◌, refl, sym, ap, ◌∙◌, true, false, none, some, List, [], ◌∷◌, ◌++◌, inl, inr,
  Bool-cases,
}
use walnut_billing.Prelude.Int.{ℤ, pos, pos_part, neg_part, ◌+ℤ◌, ◌-ℤ◌, int_laws}
use walnut_billing.Prelude.Word.{wrap64}
use walnut_billing.Prelude.Text.{◌==◌, eq_iff}
use walnut_billing.Domain.Credit.{
  CreditAccount, CreditBucket, CreditReservation, CreditTransaction, is_pending,
}
use walnut_billing.Repository.Table.{lookup, upsert}
use walnut_billing.Repository.Table.Lookup.{lookup-append_new}
use walnut_billing.Repository.World.{Store}
use walnut_billing.Credit.Books.{ledger_sum, field_or_zero, held_by, held_sum, IsConsistent}
use walnut_billing.Credit.Books.Steps.{IsOff, at}

abbrev pub added_transaction : CreditTransaction → Store → Store
added_transaction t s = record s { transactions = s.transactions ++ t ∷ [] }

abbrev pub added_reservation : CreditReservation → Store → Store
added_reservation r s = record s { reservations = s.reservations ++ r ∷ [] }

abbrev pub added_account : CreditAccount → Store → Store
added_account a s = record s { accounts = s.accounts ++ a ∷ [] }

abbrev pub saved_reservation : CreditReservation → Store → Store
saved_reservation r s = record s { reservations = upsert (λ x. x.id) r s.reservations }

abbrev pub saved_bucket : CreditBucket → Store → Store
saved_bucket b s = record s { buckets = upsert (λ x. x.id) b s.buckets }

abbrev pub added_bucket : CreditBucket → Store → Store
added_bucket b s = record s { buckets = s.buckets ++ b ∷ [] }

ledger_sum-append :
    (k : String) (t : CreditTransaction) (ts : List CreditTransaction)
    → ledger_sum k (ts ++ t ∷ []) ≡ ledger_sum k ts +ℤ at t.account_id k t.amount
unfolding ledger_sum
ledger_sum-append k t [] = omega int_laws
ledger_sum-append k t (u ∷ ts) = rw (ledger_sum-append k t ts) (omega int_laws)

held_sum-append :
    (k : String) (r : CreditReservation) (rs : List CreditReservation)
    → held_sum k (rs ++ r ∷ []) ≡ held_sum k rs +ℤ held_by k r
unfolding held_sum
held_sum-append k r [] = omega int_laws
held_sum-append k r (u ∷ rs) = rw (held_sum-append k r rs) (omega int_laws)

some_path_inj : (u v : CreditReservation) → some u ≡ some v → u ≡ v
some_path_inj u v h = cc

held_sum-upsert :
    (k : String) (old r : CreditReservation) (rs : List CreditReservation)
    → lookup (λ x. x.id) r.id rs ≡ some old
    → held_sum k (upsert (λ x. x.id) r rs) +ℤ held_by k old ≡ held_sum k rs +ℤ held_by k r
unfolding held_sum lookup upsert
held_sum-upsert k old r [] h = cc
held_sum-upsert k old r (u ∷ rs) h = elim (Bool-cases (u.id == r.id)) [
  | inl here ↦ rw here (replaced (ap (held_by k) (some_path_inj u old (rw here at h))))
  | inr there ↦ rw there (regroup (held_sum-upsert k old r rs (rw there at h)))
]
  where
    replaced :
        held_by k u ≡ held_by k old
        → held_by k r +ℤ held_sum k rs +ℤ held_by k old
          ≡ held_by k u +ℤ held_sum k rs +ℤ held_by k r
    replaced e = rw e (omega int_laws)

    regroup :
        held_sum k (upsert (λ x. x.id) r rs) +ℤ held_by k old ≡ held_sum k rs +ℤ held_by k r
        → held_by k u +ℤ held_sum k (upsert (λ x. x.id) r rs) +ℤ held_by k old
          ≡ held_by k u +ℤ held_sum k rs +ℤ held_by k r
    regroup e = omega (int_laws, ap pos_part e, ap neg_part e)

moved : (k j : String) (sum d x : ℤ) → sum +ℤ at k j x +ℤ at k j (d -ℤ x) ≡ sum +ℤ at k j d
moved k j sum d x = elim (Bool-cases (k == j)) [
  | inl same ↦ rw same (omega int_laws)
  | inr other ↦ rw other (omega int_laws)
]

regained :
    (k j : String) (after before e x : ℤ)
    → after +ℤ at k j x ≡ before +ℤ pos 0
    → after +ℤ at k j (e +ℤ x) ≡ before +ℤ at k j e
regained k j after before e x h = elim (Bool-cases (k == j)) [
  | inl same ↦ rw same (let h' = rw same at h in omega (int_laws, ap pos_part h', ap neg_part h'))
  | inr other ↦
      rw other (let h' = rw other at h in omega (int_laws, ap pos_part h', ap neg_part h'))
]

held_by-pending :
    (j : String) (r : CreditReservation)
    → is_pending r.status ≡ true
    → held_by j r ≡ at r.account_id j r.amount
unfolding held_by
held_by-pending j r h = elim (Bool-cases (r.account_id == j)) [
  | inl same ↦ rw same (rw h refl)
  | inr other ↦ rw other refl
]

held_by-done :
    (j : String) (r : CreditReservation) → is_pending r.status ≡ false → held_by j r ≡ pos 0
unfolding held_by
held_by-done j r h = elim (Bool-cases (r.account_id == j)) [
  | inl same ↦ rw same (rw h refl)
  | inr other ↦ rw other refl
]

-- A new ledger row takes its amount off what the account is off by.
pub added_transaction-IsOff :
    (k : String) (d e : ℤ) (t : CreditTransaction) (s : Store)
    → t.account_id ≡ k
    → IsOff k d e s
    → IsOff k (d -ℤ t.amount) e (added_transaction t s)
added_transaction-IsOff k d e t s same off = record {
  balanced = λ j.
      off.balanced j
      ∙ ap wrap64 (
          rw (ledger_sum-append j t s.transactions, same)
            (sym (moved k j (ledger_sum j s.transactions) d t.amount)));
  held = off.held;
}

-- A new pending reservation takes its amount off what the reserved amount is off by.
pub added_reservation-IsOff :
    (k : String) (d e : ℤ) (r : CreditReservation) (s : Store)
    → r.account_id ≡ k
    → is_pending r.status ≡ true
    → IsOff k d e s
    → IsOff k d (e -ℤ r.amount) (added_reservation r s)
added_reservation-IsOff k d e r s same pending off = record {
  balanced = off.balanced;
  held = λ j.
      off.held j
      ∙ ap wrap64 (
          rw (held_sum-append j r s.reservations, held_by-pending j r pending, same)
            (sym (moved k j (held_sum j s.reservations) e r.amount)));
}

-- A pending reservation that is no longer pending adds its amount to what is off.
pub saved_reservation-IsOff :
    (k : String) (d e : ℤ) (old r : CreditReservation) (s : Store)
    → lookup (λ x. x.id) old.id s.reservations ≡ some old
    → old.account_id ≡ k
    → is_pending old.status ≡ true
    → r.id ≡ old.id
    → is_pending r.status ≡ false
    → IsOff k d e s
    → IsOff k d (e +ℤ old.amount) (saved_reservation r s)
saved_reservation-IsOff k d e old r s found same pending id done off = record {
  balanced = off.balanced;
  held = λ j. off.held j ∙ ap wrap64 (sym (released j));
}
  where
    released :
        (j : String)
        → held_sum j (upsert (λ x. x.id) r s.reservations) +ℤ at k j (e +ℤ old.amount)
          ≡ held_sum j s.reservations +ℤ at k j e
    released j =
        let sums = held_sum-upsert j old r s.reservations (rw id found) in
        regained k j (held_sum j (upsert (λ x. x.id) r s.reservations)) (held_sum j s.reservations)
          e old.amount (rw (held_by-pending j old pending, held_by-done j r done, same) at sums)

-- A field of the accounts after an account with it at zero is added.
added_field :
    (a : CreditAccount) (j : String) (s : Store) (x : ℤ) (field : CreditAccount → ℤ)
    → lookup (λ x. x.id) a.id s.accounts ≡ none
    → field a ≡ pos 0
    → field_or_zero field (lookup (λ x. x.id) j s.accounts) ≡ x
    → field_or_zero field (lookup (λ x. x.id) j (s.accounts ++ a ∷ [])) ≡ x
added_field a j s x field fresh zero h =
    rw (lookup-append_new (λ (x : CreditAccount). x.id) j a s.accounts fresh)
      (elim (Bool-cases (a.id == j)) [
        | inl same ↦ rw same (zero ∙ absent (rw (sym ((eq_iff a.id j).0 same)) fresh) h)
        | inr other ↦ rw other h
      ])
  where
    absent :
        lookup (λ x. x.id) j s.accounts ≡ none
        → field_or_zero field (lookup (λ x. x.id) j s.accounts) ≡ x
        → pos 0 ≡ x
    absent e k = rw e at k

pub added_account-IsConsistent :
    (a : CreditAccount) (s : Store)
    → lookup (λ x. x.id) a.id s.accounts ≡ none
    → a.balance ≡ pos 0
    → a.reserved ≡ pos 0
    → IsConsistent s
    → IsConsistent (added_account a s)
added_account-IsConsistent a s fresh hb hr c = record {
  balanced = λ j.
      added_field a j s (wrap64 (ledger_sum j s.transactions)) (λ r. r.balance) fresh hb
        (c.balanced j);
  held = λ j.
      added_field a j s (wrap64 (held_sum j s.reservations)) (λ r. r.reserved) fresh hr (c.held j);
}
