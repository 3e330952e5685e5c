-- ===== src/Cloud/Paths/Safe.antt =====
-- Segments are not empty, not long and have only safe characters.
use walnut_billing.Prelude.{
  ℕ, zero, suc, ◌≤◌, String, Bool, ◌≡◌, refl, true, false, not, ◌&&◌, inl, inr, Bool-cases, arith,
  if◌then◌else◌,
}
use Prim.Native.Char.{Char}
use Prim.Native.String.{◌++◌}
use Prim.Native.String.append
use walnut_billing.Prelude.Text.{◌==◌, trim, is_empty, take_text}
use walnut_billing.Cloud.Paths.{
  is_safe, is_edge, replace_unsafe, cut_left, put_kept, cut_right, sanitize_path_segment, path_base,
  sanitize_filename,
}

abbrev pub AllChars : (Char → Bool) → String → Type 0
AllChars p String.[] = Unit
AllChars p (String.◌∷◌ c s) = (p c ≡ true) × AllChars p s

abbrev pub text_length : String → ℕ
text_length String.[] = 0
text_length (String.◌∷◌ c s) = suc (text_length s)

module _ (p : Char → Bool) where
  AllChars-append : (s t : String) → AllChars p s → AllChars p t → AllChars p (s ++ t)
  AllChars-append String.[] t h k = rw append.nil k
  AllChars-append (String.◌∷◌ c s) t (q, h) k = rw append.cons (q, AllChars-append s t h k)

  cut_left-AllChars : (q : Char → Bool) (s : String) → AllChars p s → AllChars p (cut_left q s)
  unfolding cut_left
  cut_left-AllChars q String.[] h = tt
  cut_left-AllChars q (String.◌∷◌ c s) (k, h) = elim (Bool-cases (q c)) [
    | inl cut ↦ rw cut (cut_left-AllChars q s h)
    | inr kept ↦ rw kept (k, h)
  ]

  put_kept-AllChars :
      (q : Char → Bool) (c : Char) (s : String)
      → p c ≡ true
      → AllChars p s
      → AllChars p (put_kept q c s)
  unfolding put_kept
  put_kept-AllChars q c s k h = elim (Bool-cases (is_empty s && q c)) [
    | inl cut ↦ rw cut tt
    | inr kept ↦ rw kept (k, h)
  ]

  cut_right-AllChars : (q : Char → Bool) (s : String) → AllChars p s → AllChars p (cut_right q s)
  unfolding cut_right
  cut_right-AllChars q String.[] h = tt
  cut_right-AllChars q (String.◌∷◌ c s) (k, h) =
      put_kept-AllChars q c (cut_right q s) k (cut_right-AllChars q s h)

  take_text-AllChars : (n : ℕ) (s : String) → AllChars p s → AllChars p (take_text n s)
  unfolding take_text
  take_text-AllChars zero s h = tt
  take_text-AllChars (suc n) String.[] h = tt
  take_text-AllChars (suc n) (String.◌∷◌ c s) (k, h) = (k, take_text-AllChars n s h)

dash_is_safe : AllChars is_safe "-"
unfolding is_safe
dash_is_safe = (refl, tt)

replace_unsafe-AllChars : (b : Bool) (s : String) → AllChars is_safe (replace_unsafe b s)
unfolding replace_unsafe
replace_unsafe-AllChars b String.[] = tt
replace_unsafe-AllChars b (String.◌∷◌ c s) =
    by_char (is_safe c) b refl (replace_unsafe-AllChars (not (is_safe c)) s)
  where
    by_char :
        (safe running : Bool)
        → is_safe c ≡ safe
        → AllChars is_safe (replace_unsafe (not (is_safe c)) s)
        → AllChars is_safe (
            if safe
            then String.◌∷◌ c (replace_unsafe (not (is_safe c)) s)
            else if running
            then replace_unsafe (not (is_safe c)) s
            else "-" ++ replace_unsafe (not (is_safe c)) s)
    by_char true running e h = (e, h)
    by_char false true e h = h
    by_char false false e h = AllChars-append is_safe "-" _ dash_is_safe h

take_text-length : (n : ℕ) (s : String) → text_length (take_text n s) ≤ n
unfolding take_text
take_text-length zero s = omega arith
take_text-length (suc n) String.[] = omega arith
take_text-length (suc n) (String.◌∷◌ c s) = omega (arith, take_text-length n s)

-- A segment of a key: not empty, of at most 128 characters, all of them safe.
pub record IsSegment (s : String) : Type 0 where
  pub safe : AllChars is_safe s
  pub filled : is_empty s ≡ false
  pub short : text_length s ≤ 128

resource-IsSegment : IsSegment "resource"
unfolding is_safe is_empty
resource-IsSegment = record {
  safe = (refl, (refl, (refl, (refl, (refl, (refl, (refl, (refl, tt))))))));
  filled = refl;
  short = omega arith;
}

take_text-filled :
    (n : ℕ) (s : String) → is_empty s ≡ false → is_empty (take_text (suc n) s) ≡ false
unfolding take_text is_empty
take_text-filled n String.[] h = cc
take_text-filled n (String.◌∷◌ c s) h = refl

-- Every text that a path segment is made of becomes a text that is not empty, has at most 128
-- characters, and has only letters, digits and the characters `_.:-`.
pub sanitize_path_segment-IsSegment : (value : String) → IsSegment (sanitize_path_segment value)
unfolding sanitize_path_segment
sanitize_path_segment-IsSegment value =
    by_cleaned (cut_right is_edge (cut_left is_edge (replace_unsafe false (trim value)))) (
      cut_right-AllChars is_safe is_edge _
        (cut_left-AllChars is_safe is_edge _ (replace_unsafe-AllChars false (trim value))))
  where
    by_cleaned :
        (s : String)
        → AllChars is_safe s
        → IsSegment (if is_empty s then "resource" else take_text 128 s)
    by_cleaned s h = elim (Bool-cases (is_empty s)) [
      | inl none_left ↦ rw none_left resource-IsSegment
      | inr some_left ↦ rw some_left (record {
        safe = take_text-AllChars is_safe 128 s h;
        filled = take_text-filled 127 s some_left;
        short = take_text-length 128 s;
      })
    ]

object_bin-IsSegment : IsSegment "object.bin"
unfolding is_safe is_empty
object_bin-IsSegment = record {
  safe = (refl, (refl, (refl, (refl, (refl, (refl, (refl, (refl, (refl, (refl, tt))))))))));
  filled = refl;
  short = omega arith;
}

pub sanitize_filename-IsSegment : (value : String) → IsSegment (sanitize_filename value)
unfolding sanitize_filename
sanitize_filename-IsSegment value =
    by_name (sanitize_path_segment (path_base (trim value)))
      (sanitize_path_segment-IsSegment (path_base (trim value)))
  where
    by_name : (s : String) → IsSegment s → IsSegment (if s == "resource" then "object.bin" else s)
    by_name s h = elim (Bool-cases (s == "resource")) [
      | inl default ↦ rw default object_bin-IsSegment
      | inr named ↦ rw named h
    ]
