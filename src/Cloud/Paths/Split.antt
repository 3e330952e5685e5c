-- ===== src/Cloud/Paths/Split.antt =====
-- The key of an object, taken apart at its slashes.
use walnut_billing.Prelude.{
  String, ◌≡◌, refl, ap, ◌∙◌, true, false, inl, inr, List, [], ◌∷◌, Bool-cases, arith,
  if◌then◌else◌,
}
use Prim.Native.Char.{Char}
use Prim.Native.String.{◌++◌}
use Prim.Native.String.append
use walnut_billing.Cloud.Paths.{
  is_safe, is_slash, sanitize_path_segment, sanitize_filename, object_key_for,
}
use walnut_billing.Cloud.Paths.Safe.{
  AllChars, IsSegment, sanitize_path_segment-IsSegment, sanitize_filename-IsSegment,
}

abbrev pub prepend : Char → List String → List String
prepend c [] = String.◌∷◌ c String.[] ∷ []
prepend c (w ∷ ws) = String.◌∷◌ c w ∷ ws

-- The parts of a text between slashes.
unfoldable pub split_slash : String → List String
split_slash String.[] = String.[] ∷ []
split_slash (String.◌∷◌ c s) =
    if is_slash c then String.[] ∷ split_slash s else prepend c (split_slash s)

-- Lists of parts put together: the last part of one and the first of the other become one.
abbrev glue : List String → List String → List String
glue [] vs = vs
glue (w ∷ []) [] = w ∷ []
glue (w ∷ []) (v ∷ vs) = (w ++ v) ∷ vs
glue (w ∷ x ∷ ws) vs = w ∷ glue (x ∷ ws) vs

prepend-glue : (c : Char) (ws vs : List String) → prepend c (glue ws vs) ≡ glue (prepend c ws) vs
prepend-glue c [] [] = refl
prepend-glue c [] (v ∷ vs) = rw append.cons (rw append.nil refl)
prepend-glue c (w ∷ []) [] = refl
prepend-glue c (w ∷ []) (v ∷ vs) = rw append.cons refl
prepend-glue c (w ∷ x ∷ ws) vs = refl

abbrev Parts : String → Type 0
Parts t = (v : String) × (vs : List String) × (split_slash t ≡ v ∷ vs)

prepend-Parts :
    (c : Char) (ws : List String) → (v : String) × (vs : List String) × (prepend c ws ≡ v ∷ vs)
prepend-Parts c [] = (_, _, refl)
prepend-Parts c (w ∷ ws) = (_, _, refl)

split_slash-Parts : (t : String) → Parts t
unfolding split_slash
split_slash-Parts String.[] = (_, _, refl)
split_slash-Parts (String.◌∷◌ c t) = elim (Bool-cases (is_slash c)) [
  | inl slash ↦ (String.[], split_slash t, rw slash refl)
  | inr other ↦ rw other (prepend-Parts c (split_slash t))
]

split_slash-append : (s t : String) → split_slash (s ++ t) ≡ glue (split_slash s) (split_slash t)
unfolding split_slash
split_slash-append String.[] t =
    let (v, vs, e) = split_slash-Parts t in rw append.nil (rw e (rw append.nil refl))
split_slash-append (String.◌∷◌ c s) t = elim (Bool-cases (is_slash c)) [
  | inl slash ↦
      let (v, vs, e) = split_slash-Parts s in
      rw append.cons (rw slash (ap (λ ws. String.[] ∷ ws) (split_slash-append s t) ∙ rw e refl))
  | inr other ↦ rw append.cons (
      rw other
        (ap (prepend c) (split_slash-append s t) ∙ prepend-glue c (split_slash s) (split_slash t)))
]

safe_is_no_slash : (c : Char) → is_safe c ≡ true → is_slash c ≡ false
unfolding is_safe is_slash
safe_is_no_slash c h = ground arith

split_slash-safe : (s : String) → AllChars is_safe s → split_slash s ≡ s ∷ []
unfolding split_slash
split_slash-safe String.[] h = refl
split_slash-safe (String.◌∷◌ c s) (k, h) =
    rw (safe_is_no_slash c k) (ap (prepend c) (split_slash-safe s h))

append_empty : (s : String) → s ++ "" ≡ s
append_empty String.[] = rw append.nil refl
append_empty (String.◌∷◌ c s) = rw append.cons (ap (String.◌∷◌ c) (append_empty s))

glue_last : (t : String) → glue (String.[] ∷ []) (split_slash t) ≡ split_slash t
glue_last t = let (v, vs, e) = split_slash-Parts t in rw e (rw append.nil refl)

slash_first : (t : String) → split_slash ("/" ++ t) ≡ "" ∷ split_slash t
unfolding split_slash is_slash
slash_first t = split_slash-append "/" t ∙ ap (λ ws. "" ∷ ws) (glue_last t)

projects_first : (t : String) → split_slash ("/projects/" ++ t) ≡ "" ∷ "projects" ∷ split_slash t
unfolding split_slash is_slash
projects_first t = split_slash-append "/projects/" t ∙ ap (λ ws. "" ∷ "projects" ∷ ws) (glue_last t)

accounts_first : (t : String) → split_slash ("accounts/" ++ t) ≡ "accounts" ∷ split_slash t
unfolding split_slash is_slash
accounts_first t = split_slash-append "accounts/" t ∙ ap (λ ws. "accounts" ∷ ws) (glue_last t)

-- A segment before a slash.
segment_first :
    (s t : String) (vs : List String)
    → IsSegment s
    → split_slash t ≡ "" ∷ vs
    → split_slash (s ++ t) ≡ s ∷ vs
segment_first s t vs h e =
    split_slash-append s t
    ∙ rw (split_slash-safe s h.safe) (rw e (ap (λ w. w ∷ vs) (append_empty s)))

-- The key of an object splits at its slashes into the seven parts that it was made of, whatever
-- slashes and other characters the user, the project and the resource have.
pub object_key_for-split :
    (user_id client_project_id kind hash filename : String)
    → split_slash (object_key_for user_id client_project_id kind hash filename)
      ≡ "accounts"
        ∷ sanitize_path_segment user_id
        ∷ "projects"
        ∷ sanitize_path_segment client_project_id
        ∷ sanitize_path_segment kind
        ∷ sanitize_path_segment hash
        ∷ sanitize_filename filename
        ∷ []
unfolding object_key_for
object_key_for-split user_id client_project_id kind hash filename =
    let segment = sanitize_path_segment-IsSegment in
    let file = split_slash-safe _ (sanitize_filename-IsSegment filename).safe in
    let from_hash = segment_first _ _ _ (segment hash) (slash_first _ ∙ ap (λ ws. "" ∷ ws) file) in
    let from_kind =
      segment_first _ _ _ (segment kind) (slash_first _ ∙ ap (λ ws. "" ∷ ws) from_hash) in
    let from_project =
      segment_first _ _ _ (segment client_project_id)
        (slash_first _ ∙ ap (λ ws. "" ∷ ws) from_kind) in
    accounts_first _
    ∙ ap (λ ws. "accounts" ∷ ws)
        (segment_first _ _ _ (segment user_id)
          (projects_first _ ∙ ap (λ ws. "" ∷ "projects" ∷ ws) from_project))
