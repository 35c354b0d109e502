-- ===== src/Uri/Join.antt =====
-- Joining a backend's URL with a request's path: a slash at the end of the URL makes no difference.
use Prim.Native.Char.{Char}
use Prim.Native.String.{String, [], ◌∷◌}
use text.Mathlib.TextLemmas.{nil-append, cons-append, append_assoc, cons-ne-nil}
use text.Mathlib.TextEquality.{Char-path}
use sol_rpc_router.Base.{
  ◌≡◌, ◌∙◌, refl, ap, inl, inr, Bool, true, false, arith, eq_iff, ◌==◌, ◌&&◌, Bool-cases,
  if◌then◌else◌,
}
use sol_rpc_router.Uri.{◌⋅◌, is_slash, trim_end, ends_with_slash, starts_with_slash, target_uri}

and_false : (b : Bool) → (b && false) ≡ false
and_false true = refl
and_false false = refl

slash-append : (c : Char) (p : String) → is_slash c ≡ true → "/" ⋅ p ≡ c ∷ p
slash-append c p h =
    let same : c ≡ "/" = Char-path c "/" (ground arith) in
    rw same (cons-append "/" "" p ∙ ap (λ t. ◌∷◌ "/" t) (nil-append p))

cons-not_empty : (c : Char) (s : String) → ((c ∷ s) == "") ≡ false
cons-not_empty c s = elim (Bool-cases ((c ∷ s) == "")) [
  | inl e ↦ absurd (cons-ne-nil c s ((eq_iff (c ∷ s) "").0 e))
  | inr e ↦ e
]

trim_end_of_no_slash : (u : String) → ends_with_slash u ≡ false → trim_end u ≡ u
unfolding trim_end ends_with_slash
trim_end_of_no_slash [] h = refl
trim_end_of_no_slash (c ∷ []) h = rw h
trim_end_of_no_slash (c ∷ d ∷ s) h =
    rw (trim_end_of_no_slash (d ∷ s) h) (rw (cons-not_empty d s, and_false (is_slash c)))

trim_end-slash : (u : String) → ends_with_slash u ≡ false → trim_end (u ⋅ "/") ≡ u
unfolding trim_end ends_with_slash
trim_end-slash [] h = refl
trim_end-slash (c ∷ []) h = rw cons-append (rw h)
trim_end-slash (c ∷ d ∷ s) h =
    rw cons-append (rw (trim_end-slash (d ∷ s) h) (rw (cons-not_empty d s, and_false (is_slash c))))

ends_with_slash-slash : (u : String) → ends_with_slash (u ⋅ "/") ≡ true
unfolding ends_with_slash
ends_with_slash-slash [] = refl
ends_with_slash-slash (c ∷ []) = rw cons-append
ends_with_slash-slash (c ∷ d ∷ s) =
    rw (cons-append, cons-append) (rw cons-append at (ends_with_slash-slash (d ∷ s)))

-- A backend URL with one slash at its end gives the same target as the URL without it, for every
-- request path that begins with a slash: the URL itself for the root path, and otherwise the URL
-- followed by the path, with one slash between them.
pub target_uri-slash :
    (u p : String)
    → ends_with_slash u ≡ false
    → starts_with_slash p ≡ true
    → (target_uri (u ⋅ "/") p ≡ (if p == "/" then u else u ⋅ p))
      × (target_uri u p ≡ (if p == "/" then u else u ⋅ p))
unfolding target_uri
target_uri-slash u [] h k = cc
target_uri-slash u (c ∷ p) h k = elim (Bool-cases ((c ∷ p) == "/")) [
  | inl root ↦ rw root (trim_end-slash u h, trim_end_of_no_slash u h)
  | inr path ↦
      rw (path, ends_with_slash-slash u, k, h)
        (append_assoc u "/" p ∙ ap (λ t. u ⋅ t) (slash-append c p k), refl)
]
