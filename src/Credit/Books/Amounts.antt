-- ===== src/Credit/Books/Amounts.antt =====
-- Amounts that a balance and the ledger take on together, in 64 bits.
use walnut_billing.Prelude.{◌≡◌, refl, ap, ◌∙◌, false, arith}
use walnut_billing.Prelude.Int.{ℤ, pos, pos_part, neg_part, ◌≤ℤ◌, ltb_ℤ, neg, ◌+ℤ◌, ◌-ℤ◌, int_laws}
use walnut_billing.Prelude.Word.{wrap64, add64, sub64, neg64, wrap64-sub_right}

-- What is written to the balance is written to the ledger.
pub granted_out : (x : ℤ) → wrap64 (pos 0 +ℤ x -ℤ x) ≡ wrap64 (pos 0)
granted_out x = ap wrap64 (omega int_laws)

pub reserved_out : (x : ℤ) → wrap64 (pos 0 +ℤ (pos 0 -ℤ x) -ℤ neg64 x) ≡ wrap64 (pos 0)
unfolding neg64
reserved_out x = wrap64-sub_right (pos 0 +ℤ (pos 0 -ℤ x)) (neg x) ∙ ap wrap64 (omega int_laws)

pub sub64-add : (a x : ℤ) → sub64 a x ≡ wrap64 (a +ℤ (pos 0 -ℤ x))
unfolding sub64
sub64-add a x = ap wrap64 (omega int_laws)

pub add64_lem : (a x : ℤ) → add64 a x ≡ wrap64 (a +ℤ x)
unfolding add64
add64_lem a x = refl

pub zero_of_not_pos : (x : ℤ) → pos 0 ≤ℤ x → ltb_ℤ (pos 0) x ≡ false → x ≡ pos 0
zero_of_not_pos x h k = ground arith

-- An amount that is taken off the balance and written to the ledger leaves nothing off.
pub balanced_out : (d x : ℤ) → wrap64 (d +ℤ (pos 0 -ℤ x) -ℤ neg64 x) ≡ wrap64 d
unfolding neg64
balanced_out d x = wrap64-sub_right (d +ℤ (pos 0 -ℤ x)) (neg x) ∙ ap wrap64 (omega int_laws)

pub unchanged : (d x : ℤ) → x ≡ pos 0 → wrap64 d ≡ wrap64 (d +ℤ (pos 0 -ℤ x))
unchanged d x h = ap wrap64 (omega (int_laws, ap pos_part h, ap neg_part h))
