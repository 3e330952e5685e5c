-- ===== src/Credit/Books/Start.antt =====
-- The first and the last state of an operation.
use walnut_billing.Prelude.{◌≡◌, refl, ◌∙◌, none, some}
use walnut_billing.Prelude.Int.{ℤ, pos}
use walnut_billing.Prelude.Word.{wrap64}
use walnut_billing.Prelude.Text.{eq_iff}
use walnut_billing.Domain.Credit.{CreditAccount}
use walnut_billing.Repository.Table.{lookup}
use walnut_billing.Repository.Table.Lookup.{lookup-append_new}
use walnut_billing.Repository.World.{Store, World}
use walnut_billing.Credit.Books.{IsConsistent}
use walnut_billing.Credit.Books.Steps.{IsOff-start, IsOff-end, lookup-IsSynced}
use walnut_billing.Credit.Books.Rows.{added_account, added_account-IsConsistent}
use walnut_billing.Credit.Books.Booked.{IsBooked}

-- The books hold after the action, if it returns no error.
abbrev pub Kept : {A : Type 0} → A → World → Type 0
Kept a w = IsConsistent w.store

pub IsBooked-start :
    (a : CreditAccount) (s : Store)
    → IsConsistent s
    → lookup (λ x. x.id) a.id s.accounts ≡ some a
    → IsBooked a (pos 0) (pos 0) s
IsBooked-start a s c found = record { off = IsOff-start a.id s c; sync = lookup-IsSynced a s found }

pub IsBooked-end :
    (a : CreditAccount) (d e : ℤ) (s : Store)
    → wrap64 d ≡ wrap64 (pos 0)
    → wrap64 e ≡ wrap64 (pos 0)
    → IsBooked a d e s
    → IsConsistent s
IsBooked-end a d e s hd he h = IsOff-end a.id d e s hd he h.off

-- A new account at zero, as the table has it.
pub added_account-IsBooked :
    (a : CreditAccount) (s : Store)
    → lookup (λ x. x.id) a.id s.accounts ≡ none
    → a.balance ≡ pos 0
    → a.reserved ≡ pos 0
    → IsConsistent s
    → IsBooked a (pos 0) (pos 0) (added_account a s)
added_account-IsBooked a s fresh hb hr c =
    IsBooked-start a (added_account a s) (added_account-IsConsistent a s fresh hb hr c) (
      lookup-append_new (λ (x : CreditAccount). x.id) a.id a s.accounts fresh
      ∙ rw ((eq_iff a.id a.id).1 refl) refl)
