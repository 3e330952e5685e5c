-- ===== src/Prelude/Text.antt =====
-- Go strings: `strings.TrimSpace`, the empty test, `strings.EqualFold` on letters of ASCII and the
-- order of `<`. A text is a list of code points, which UTF-8 orders as it orders bytes.
use Prim.Native.Nat.{ℕ, zero, suc}
use Prim.Native.Char.{Char, code}
use Prim.Native.String.{String}
use mathlib.Core.Path.{◌≡◌, refl}
use mathlib.Core.Logic.{inl, inr}
use mathlib.Core.Bool.{Bool, true, false, ◌&&◌, ◌||◌}
use text.Mathlib.TextEquality.{eq_iff}
use walnut_billing.Prelude.Tests.{ltb, leb, nat_eq, if◌then◌else◌, Bool-cases}
unfoldable pub use text.Mathlib.Text.{◌==◌}
pub use text.Mathlib.TextEquality.{eq_iff}

-- `unicode.IsSpace`
abbrev is_space_code : ℕ → Bool
is_space_code c =
    (leb 9 c && leb c 13)
    || nat_eq c 32
    || nat_eq c 0x85
    || nat_eq c 0xA0
    || nat_eq c 0x1680
    || (leb 0x2000 c && leb c 0x200a)
    || nat_eq c 0x2028
    || nat_eq c 0x2029
    || nat_eq c 0x202f
    || nat_eq c 0x205f
    || nat_eq c 0x3000

unfoldable pub is_space : Char → Bool
is_space c = is_space_code (code c)

unfoldable pub is_empty : String → Bool
is_empty String.[] = true
is_empty (String.◌∷◌ c s) = false

unfoldable pub trim_left : String → String
trim_left String.[] = String.[]
trim_left (String.◌∷◌ c s) = if is_space c then trim_left s else String.◌∷◌ c s

-- `c` in front of a text that has been trimmed on the right.
unfoldable pub put_right : Char → String → String
put_right c s = if is_empty s && is_space c then String.[] else String.◌∷◌ c s

unfoldable pub trim_right : String → String
unfolding put_right
trim_right String.[] = String.[]
trim_right (String.◌∷◌ c s) = put_right c (trim_right s)

-- `strings.TrimSpace`
unfoldable pub trim : String → String
unfolding trim_left trim_right is_space is_empty
trim s = trim_right (trim_left s)

-- `a < b`
unfoldable pub text_lt : String → String → Bool
text_lt String.[] String.[] = false
text_lt String.[] (String.◌∷◌ d t) = true
text_lt (String.◌∷◌ c s) String.[] = false
text_lt (String.◌∷◌ c s) (String.◌∷◌ d t) =
    ltb (code c) (code d) || (nat_eq (code c) (code d) && text_lt s t)

-- `value[:n]`, of a text of ASCII.
unfoldable pub take_text : ℕ → String → String
take_text zero s = String.[]
take_text (suc n) String.[] = String.[]
take_text (suc n) (String.◌∷◌ c s) = String.◌∷◌ c (take_text n s)

put_right_idem :
    (c : Char) (s : String) → trim_right s ≡ s → trim_right (put_right c s) ≡ put_right c s
unfolding trim_right put_right
put_right_idem c s h = elim (Bool-cases (is_empty s && is_space c)) [
  | inl blank ↦ rw blank refl
  | inr kept ↦ rw kept (rw h (rw kept refl))
]

trim_right_idem : (s : String) → trim_right (trim_right s) ≡ trim_right s
unfolding trim_right
trim_right_idem String.[] = refl
trim_right_idem (String.◌∷◌ c s) = put_right_idem c (trim_right s) (trim_right_idem s)

trim_left-put_right :
    (c : Char) (s : String) → is_space c ≡ false → trim_left (put_right c s) ≡ put_right c s
unfolding trim_left put_right is_empty
trim_left-put_right c String.[] h = rw h (rw h refl)
trim_left-put_right c (String.◌∷◌ d s) h = rw h refl

trim_left-trim_right :
    (s : String) → trim_left (trim_right (trim_left s)) ≡ trim_right (trim_left s)
unfolding trim_left trim_right
trim_left-trim_right String.[] = refl
trim_left-trim_right (String.◌∷◌ c s) = elim (Bool-cases (is_space c)) [
  | inl blank ↦ rw blank (trim_left-trim_right s)
  | inr kept ↦ rw kept (trim_left-put_right c (trim_right s) kept)
]

pub trim_idem : (s : String) → trim (trim s) ≡ trim s
unfolding trim
trim_idem s = rw trim_left-trim_right (trim_right_idem (trim_left s))
