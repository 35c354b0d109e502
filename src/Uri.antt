-- ===== src/Uri.antt =====
-- src/handlers.rs, the rewriting of a request's target inside `proxy`: dropping the key from the
-- query, and joining the backend's URL with the path. `split`, `join`, `trim_end_matches` and the
-- like are Rust's, over the characters of a text.
pub mod Query
pub mod Join
use Prim.Native.Char.{Char, code}
use Prim.Native.String
use Prim.Native.String.{String, [], ◌∷◌}
use text.Mathlib.Text.{starts_with}
use mathlib.Core.List.{List, [], ◌∷◌}
use sol_rpc_router.Base.{
  Bool, true, false, not, ◌&&◌, Option, none, some, ◌==◌, eqb, filter, if◌then◌else◌,
}

infixl 65 ◌⋅◌
abbrev pub ◌⋅◌ : String → String → String
s ⋅ t = String.◌++◌ s t

abbrev pub is_amp : Char → Bool
is_amp c = eqb (code c) b'&'

abbrev pub is_slash : Char → Bool
is_slash c = eqb (code c) b'/'

-- A character in front of the first part.
abbrev pub extend : Char → List String → List String
extend c [] = (c ∷ "") ∷ []
extend c (p ∷ ps) = (c ∷ p) ∷ ps

-- `split('&')`.
unfoldable pub split : String → List String
split [] = "" ∷ []
split (c ∷ s) = let rest = split s in if is_amp c then "" ∷ rest else extend c rest

-- `join("&")`.
unfoldable pub join : List String → String
join [] = ""
join (p ∷ []) = p
join (p ∷ q ∷ ps) = p ⋅ ("&" ⋅ join (q ∷ ps))

abbrev pub keeps : String → Bool
keeps p = not (starts_with p "api-key=")

-- `cleaned_query` of a query that is there.
unfoldable pub clean_query : String → String
unfolding split join
clean_query q = join (filter keeps (split q))

-- `cleaned_query`, empty without a query.
unfoldable pub cleaned_query : Option String → String
cleaned_query none = ""
cleaned_query (some q) = clean_query q

unfoldable pub cleaned_request_path : String → Option String → String
cleaned_request_path path query =
    let q = cleaned_query query in if q == "" then path else path ⋅ ("?" ⋅ q)

-- `trim_end_matches('/')`.
unfoldable pub trim_end : String → String
trim_end [] = ""
trim_end (c ∷ s) = let rest = trim_end s in if is_slash c && rest == "" then "" else c ∷ rest

unfoldable pub ends_with_slash : String → Bool
ends_with_slash [] = false
ends_with_slash (c ∷ []) = is_slash c
ends_with_slash (c ∷ d ∷ s) = ends_with_slash (d ∷ s)

unfoldable pub starts_with_slash : String → Bool
starts_with_slash [] = false
starts_with_slash (c ∷ s) = is_slash c

-- `&s[1..]`, where the text begins with a character of one byte.
abbrev pub drop_first : String → String
drop_first [] = ""
drop_first (c ∷ s) = s

-- `uri_string`.
unfoldable pub target_uri : String → String → String
unfolding trim_end ends_with_slash starts_with_slash
target_uri backend_url path =
    if path == "/"
    then trim_end backend_url
    else if ends_with_slash backend_url && starts_with_slash path
    then backend_url ⋅ drop_first path
    else backend_url ⋅ path
