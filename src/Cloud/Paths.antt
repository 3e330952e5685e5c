-- ===== src/Cloud/Paths.antt =====
-- Segments and keys of objects: `sanitizePathSegment`, `sanitizeFilename` and `objectKeyFor` of
-- internal/service/cloud_storage.go, with `path.Base` and `strings.Trim` of Go's library.
pub mod Safe
pub mod Split
use walnut_billing.Prelude.{
  ℕ, String, Bool, true, false, not, ◌&&◌, ◌||◌, leb, nat_eq, if◌then◌else◌,
}
use Prim.Native.Char.{Char, code}
use Prim.Native.String
use Prim.Native.String.{◌++◌}
use walnut_billing.Prelude.Text.{◌==◌, trim, is_empty, take_text}

-- `[a-zA-Z0-9_.:-]`
abbrev pub is_safe_code : ℕ → Bool
is_safe_code c =
    (leb b'a' c && leb c b'z')
    || (leb b'A' c && leb c b'Z')
    || (leb b'0' c && leb c b'9')
    || nat_eq c b'_'
    || nat_eq c b'.'
    || nat_eq c b':'
    || nat_eq c b'-'

unfoldable pub is_safe : Char → Bool
is_safe c = is_safe_code (code c)

-- The cut set `"-._"`.
unfoldable pub is_edge : Char → Bool
is_edge c = nat_eq (code c) b'-' || nat_eq (code c) b'.' || nat_eq (code c) b'_'

unfoldable pub is_slash : Char → Bool
is_slash c = nat_eq (code c) b'/'

-- `unsafePathSegmentRE.ReplaceAllString(…, "-")`: one dash for each run of unsafe characters. The
-- flag tells whether the run goes on.
unfoldable pub replace_unsafe : Bool → String → String
replace_unsafe running String.[] = String.[]
replace_unsafe running (String.◌∷◌ c s) =
    let rest = replace_unsafe (not (is_safe c)) s in
    if is_safe c then String.◌∷◌ c rest else if running then rest else "-" ++ rest

-- `strings.TrimLeft` and `strings.TrimRight`, of a set of characters.
unfoldable pub cut_left : (Char → Bool) → String → String
cut_left p String.[] = String.[]
cut_left p (String.◌∷◌ c s) = if p c then cut_left p s else String.◌∷◌ c s

unfoldable pub put_kept : (Char → Bool) → Char → String → String
put_kept p c s = if is_empty s && p c then String.[] else String.◌∷◌ c s

unfoldable pub cut_right : (Char → Bool) → String → String
unfolding put_kept
cut_right p String.[] = String.[]
cut_right p (String.◌∷◌ c s) = put_kept p c (cut_right p s)

-- `sanitizePathSegment`
unfoldable pub sanitize_path_segment : String → String
unfolding replace_unsafe cut_left cut_right is_safe is_edge
sanitize_path_segment value =
    let cleaned = cut_right is_edge (cut_left is_edge (replace_unsafe false (trim value))) in
    if is_empty cleaned then "resource" else take_text 128 cleaned

unfoldable pub has_slash : String → Bool
has_slash String.[] = false
has_slash (String.◌∷◌ c s) = is_slash c || has_slash s

-- The text after the last slash.
unfoldable pub after_slash : String → String
unfolding has_slash
after_slash String.[] = String.[]
after_slash (String.◌∷◌ c s) =
    if has_slash s then after_slash s else if is_slash c then s else String.◌∷◌ c s

-- `path.Base`
unfoldable pub path_base : String → String
unfolding after_slash cut_right
path_base path =
    if is_empty path
    then "."
    else if is_empty (after_slash (cut_right is_slash path))
    then "/"
    else after_slash (cut_right is_slash path)

-- `sanitizeFilename`
unfoldable pub sanitize_filename : String → String
unfolding path_base sanitize_path_segment
sanitize_filename value =
    let cleaned = sanitize_path_segment (path_base (trim value)) in
    if cleaned == "resource" then "object.bin" else cleaned

-- `objectKeyFor`, of the fields of the resource that it uses.
unfoldable pub object_key_for : String → String → String → String → String → String
unfolding sanitize_path_segment sanitize_filename
object_key_for user_id client_project_id kind hash filename =
    "accounts/"
    ++ sanitize_path_segment user_id
    ++ "/projects/"
    ++ sanitize_path_segment client_project_id
    ++ "/"
    ++ sanitize_path_segment kind
    ++ "/"
    ++ sanitize_path_segment hash
    ++ "/"
    ++ sanitize_filename filename
