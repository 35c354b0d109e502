-- ===== src/Uri/Query.antt =====
-- Splitting and joining are inverse, and the cleaned query holds no key and all else in order.
use Prim.Native.String.{String, [], ◌∷◌}
use mathlib.Core.List.{List, [], ◌∷◌}
use text.Mathlib.Text.{starts_with}
use text.Mathlib.TextLemmas.{nil-append, cons-append}
use sol_rpc_router.Base.{◌≡◌, ◌∙◌, refl, ap, ◌⊎◌, inl, inr, Bool, false, All, filter, Bool-cases}
use sol_rpc_router.Uri.{◌⋅◌, is_amp, split, join, keeps, clean_query}

-- A part holds no separator.
abbrev pub NoAmp : String → Type 0
NoAmp [] = Unit
NoAmp (c ∷ s) = (is_amp c ≡ false) × NoAmp s

split-cons : (s : String) → (p : String) × (ps : List String) × (split s ≡ p ∷ ps)
unfolding split
split-cons [] = ("", [], refl)
split-cons (c ∷ s) = elim (Bool-cases (is_amp c)) [
  | inl amp ↦ ("", split s, rw amp)
  | inr other ↦ let (p, ps, e) = split-cons s in (c ∷ p, ps, rw (other, e))
]

split-NoAmp : (s : String) → All NoAmp (split s)
unfolding split
split-NoAmp [] = (tt, tt)
split-NoAmp (c ∷ s) = elim (Bool-cases (is_amp c)) [
  | inl amp ↦ rw amp (tt, split-NoAmp s)
  | inr other ↦
      let (p, ps, e) = split-cons s in
      let h = rw e at (split-NoAmp s) in rw (other, e) ((other, h.0), h.1)
]

-- Splitting a part that is followed by a separator.
split-part : (p s : String) → NoAmp p → split (p ⋅ ("&" ⋅ s)) ≡ p ∷ split s
unfolding split
split-part [] s _ = rw (nil-append, cons-append, nil-append)
split-part (c ∷ p) s (h, hs) = rw (cons-append, h, split-part p s hs)

split-last : (p : String) → NoAmp p → split p ≡ p ∷ []
unfolding split
split-last [] _ = refl
split-last (c ∷ p) (h, hs) = rw (h, split-last p hs)

-- Parts without a separator come back from their joined text.
pub split-join :
    (p : String) (ps : List String) → NoAmp p → All NoAmp ps → split (join (p ∷ ps)) ≡ p ∷ ps
unfolding join
split-join p [] h _ = split-last p h
split-join p (q ∷ ps) h (k, ks) =
    split-part p (join (q ∷ ps)) h ∙ ap (λ (r : List String). p ∷ r) (split-join q ps k ks)

All-filter {ℓ} :
    (P : String → Type ℓ) (t : String → Bool) (ps : List String) → All P ps → All P (filter t ps)
All-filter P t [] h = tt
All-filter P t (p ∷ ps) (h, hs) = elim (Bool-cases (t p)) [
  | inl keep ↦ rw keep (h, All-filter P t ps hs)
  | inr skip ↦ rw skip (All-filter P t ps hs)
]

filter-keeps : (ps : List String) → All (λ p. starts_with p "api-key=" ≡ false) (filter keeps ps)
filter-keeps [] = tt
filter-keeps (p ∷ ps) = elim (Bool-cases (starts_with p "api-key=")) [
  | inl key ↦ rw key (filter-keeps ps)
  | inr other ↦ rw other (other, filter-keeps ps)
]

filtered_cases :
    (ps : List String) → (ps ≡ []) ⊎ ((p : String) × (qs : List String) × (ps ≡ p ∷ qs))
filtered_cases [] = inl refl
filtered_cases (p ∷ ps) = inr (p, ps, refl)

-- The parts of a cleaned query are exactly the parts of the query that do not begin with
-- "api-key=", in their order; where no part is left, the cleaned query is empty.
pub split-clean_query :
    (q : String)
    → ((filter keeps (split q) ≡ []) × (clean_query q ≡ ""))
      ⊎ (split (clean_query q) ≡ filter keeps (split q))
unfolding clean_query
split-clean_query q = elim (filtered_cases (filter keeps (split q))) [
  | inl empty ↦ inl (empty, rw empty)
  | inr (p, ps, e) ↦
      let clean = rw e at (All-filter NoAmp keeps (split q) (split-NoAmp q)) in
      inr (rw e (split-join p ps clean.0 clean.1))
]

-- No part of a cleaned query begins with "api-key=": the key does not reach the backend.
pub clean_query-drops_key :
    (q : String) → All (λ p. starts_with p "api-key=" ≡ false) (split (clean_query q))
clean_query-drops_key q = elim (split-clean_query q) [
  | inl (_, e) ↦ rw e (unfold split in (refl, tt))
  | inr e ↦ rw e (filter-keeps (split q))
]

filter_again : (ps : List String) → filter keeps (filter keeps ps) ≡ filter keeps ps
filter_again [] = refl
filter_again (p ∷ ps) = elim (Bool-cases (keeps p)) [
  | inl keep ↦ rw (keep, keep, filter_again ps)
  | inr skip ↦ rw skip (filter_again ps)
]

-- Cleaning a query that was cleaned changes nothing.
pub clean_query_idempotent : (q : String) → clean_query (clean_query q) ≡ clean_query q
clean_query_idempotent q = elim (split-clean_query q) [
  | inl (_, e) ↦ rw e (unfold clean_query in refl)
  | inr e ↦
      unfold clean_query in (ap (λ ps. join (filter keeps ps)) e ∙ ap join (filter_again (split q)))
]
