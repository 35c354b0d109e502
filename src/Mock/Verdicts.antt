-- ===== src/Mock/Verdicts.antt =====
-- The verdicts of the key store for tests, after any set-up and any calls.
use sol_rpc_router.Base.{
  ◌+◌, ◌^◌, ◌<◌, ◌≤◌, String, ◌≡◌, ◌∙◌, refl, ap, inl, inr, Bool, Option, none, some, List, [], ◌∷◌,
  ◌++◌, ◌==◌, eq_iff, eq_refl, arith, get, insert, get-insert, any, if◌then◌else◌, HashMap, filter,
  ◌||◌, Bool-cases, length,
}
use sol_rpc_router.State.{or_else}
use sol_rpc_router.Mock.{
  MockKeyStore, new, add_key, set_inactive, set_error, get_call_count, contains, count_call,
  count_or_zero, verdict, validate_key,
}
use sol_rpc_router.Mock.History.{
  Use, adds, disables, limits, fails, calls, use_one, use_all, added, failing, is_disabling,
  is_limiting, is_call, last, calls_of, judged, expected,
}

verdict-judged :
    (key : String) (m : MockKeyStore)
    → verdict key m
      ≡ judged
          (get key m.error_keys)
          (contains m.inactive_keys key)
          (get key m.keys)
          (contains m.rate_limited_keys key)
unfolding verdict
verdict-judged key m = ground arith

or_else_assoc {ℓ} :
    {A : Type ℓ} (x y z : Option A) → or_else x (or_else y z) ≡ or_else (or_else x y) z
or_else_assoc none y z = refl
or_else_assoc (some a) y z = refl

or_else-none {ℓ} : {A : Type ℓ} (x : Option A) → or_else x none ≡ x
or_else-none none = refl
or_else-none (some a) = refl

get-insert-or_else {ℓ} :
    {V : Type ℓ} (k j : String) (v : V) (m : HashMap V)
    → get j (insert k v m) ≡ or_else (if k == j then some v else none) (get j m)
get-insert-or_else k j v m = elim (Bool-cases (k == j)) [
  | inl same ↦ get-insert k j v m ∙ rw same refl
  | inr other ↦ get-insert k j v m ∙ rw other refl
]

any-append :
    {A : Type 0} (p : A → Bool) (xs ys : List A) → any p (xs ++ ys) ≡ (any p xs || any p ys)
any-append p [] ys = refl
any-append p (x ∷ xs) ys = ground (arith, any-append p xs ys)

module _ (key : String) where
  one-keys :
      (u : Use) (m : MockKeyStore)
      → get key (use_one u m).keys ≡ or_else (added key u) (get key m.keys)
  unfolding use_one add_key set_inactive set_error validate_key count_call
  one-keys (adds j info) m = get-insert-or_else j key info m.keys
  one-keys (disables j) m = refl
  one-keys (limits j) m = refl
  one-keys (fails j msg) m = refl
  one-keys (calls j) m = refl

  one-errors :
      (u : Use) (m : MockKeyStore)
      → get key (use_one u m).error_keys ≡ or_else (failing key u) (get key m.error_keys)
  unfolding use_one add_key set_inactive set_error validate_key count_call
  one-errors (adds j info) m = refl
  one-errors (disables j) m = refl
  one-errors (limits j) m = refl
  one-errors (fails j msg) m = get-insert-or_else j key msg m.error_keys
  one-errors (calls j) m = refl

  one-inactive :
      (u : Use) (m : MockKeyStore)
      → contains (use_one u m).inactive_keys key
        ≡ (contains m.inactive_keys key || is_disabling key u)
  unfolding use_one add_key set_inactive set_error validate_key count_call
  one-inactive (adds j info) m = ground arith
  one-inactive (disables j) m = ground (arith, any-append (λ x. x == key) m.inactive_keys (j ∷ []))
  one-inactive (limits j) m = ground arith
  one-inactive (fails j msg) m = ground arith
  one-inactive (calls j) m = ground arith

  one-limited :
      (u : Use) (m : MockKeyStore)
      → contains (use_one u m).rate_limited_keys key
        ≡ (contains m.rate_limited_keys key || is_limiting key u)
  unfolding use_one add_key set_inactive set_error validate_key count_call
  one-limited (adds j info) m = ground arith
  one-limited (disables j) m = ground arith
  one-limited (limits j) m = ground (arith, any-append (λ x. x == key) m.rate_limited_keys (j ∷ []))
  one-limited (fails j msg) m = ground arith
  one-limited (calls j) m = ground arith

  one-count :
      (u : Use) (m : MockKeyStore)
      → get_call_count key m + 1 < 2 ^ 64
      → get_call_count key (use_one u m)
        ≡ (if is_call key u then get_call_count key m + 1 else get_call_count key m)
  unfolding use_one add_key set_inactive set_error validate_key count_call get_call_count
  one-count (adds j info) m small = refl
  one-count (disables j) m small = refl
  one-count (limits j) m small = refl
  one-count (fails j msg) m small = refl
  one-count (calls j) m small = elim (Bool-cases (j == key)) [
    | inl same ↦
        let e : j ≡ key = (eq_iff j key).0 same in
        ap count_or_zero (get-insert j key _ m.call_counts) ∙ rw (e, eq_refl) (omega arith)
    | inr other ↦ ap count_or_zero (get-insert j key _ m.call_counts) ∙ rw other refl
  ]

length-filter : {A : Type 0} (p : A → Bool) (xs : List A) → length (filter p xs) ≤ length xs
length-filter p [] = omega arith
length-filter p (x ∷ xs) = ground (arith, length-filter p xs)

-- A field that each use changes in one way, over a whole history.
module _ {A : Type 0} (of : Use → Option A) (field : MockKeyStore → Option A)
    (one : (u : Use) (m : MockKeyStore) → field (use_one u m) ≡ or_else (of u) (field m)) where
  last_lem :
      (us : List Use) (m : MockKeyStore) → field (use_all us m) ≡ or_else (last of us) (field m)
  unfolding use_all
  last_lem [] m = refl
  last_lem (u ∷ us) m =
      last_lem us (use_one u m)
      ∙ ap (or_else (last of us)) (one u m)
      ∙ or_else_assoc (last of us) (of u) (field m)

module _ (test : Use → Bool) (field : MockKeyStore → Bool)
    (one : (u : Use) (m : MockKeyStore) → field (use_one u m) ≡ (field m || test u)) where
  any_lem : (us : List Use) (m : MockKeyStore) → field (use_all us m) ≡ (field m || any test us)
  unfolding use_all
  any_lem [] m = ground arith
  any_lem (u ∷ us) m = ground (arith, any_lem us (use_one u m), one u m)

count_lem :
    (key : String) (us : List Use) (m : MockKeyStore)
    → get_call_count key m + calls_of key us + 1 < 2 ^ 64
    → get_call_count key (use_all us m) ≡ get_call_count key m + calls_of key us
unfolding use_all
count_lem key [] m small = omega arith
count_lem key (u ∷ us) m small = elim (Bool-cases (is_call key u)) [
  | inl asks ↦
      let one = one-count key u m (omega arith) in
      let length_is : calls_of key (u ∷ us) ≡ calls_of key us + 1 = rw asks (omega arith) in
      let next : get_call_count key (use_one u m) ≡ get_call_count key m + 1 = one ∙ rw asks refl in
      let rest = count_lem key us (use_one u m) (omega (arith, next, length_is, small)) in
      omega (arith, rest, next, length_is)
  | inr other ↦
      let one = one-count key u m (omega arith) in
      let length_is : calls_of key (u ∷ us) ≡ calls_of key us = rw other refl in
      let next : get_call_count key (use_one u m) ≡ get_call_count key m = one ∙ rw other refl in
      let rest = count_lem key us (use_one u m) (omega (arith, next, length_is, small)) in
      omega (arith, rest, next, length_is)
]

-- After any history of fewer than 2⁶⁴ - 1 uses, from an empty store on, the store answers a key by
-- that history alone: the last error set for it, or nothing if it was ever disabled or never added,
-- or the rate limit error if it was limited, or else its last information. And it has counted the
-- calls for the key, refused ones too.
pub validate_key-expected :
    (key : String) (us : List Use)
    → length us + 1 < 2 ^ 64
    → ((validate_key key (use_all us new)).0 ≡ expected key us)
      × (get_call_count key (use_all us new) ≡ calls_of key us)
unfolding validate_key verdict
validate_key-expected key us small =
    let m = use_all us new in
    let errors : get key m.error_keys ≡ last (failing key) us =
      last_lem (failing key) (λ n. get key n.error_keys) (one-errors key) us new
      ∙ unfold get in (or_else-none _) in
    let keys : get key m.keys ≡ last (added key) us =
      last_lem (added key) (λ n. get key n.keys) (one-keys key) us new
      ∙ unfold get in (or_else-none _) in
    let inactive : contains m.inactive_keys key ≡ any (is_disabling key) us =
      any_lem (is_disabling key) (λ n. contains n.inactive_keys key) (one-inactive key) us new in
    let limited : contains m.rate_limited_keys key ≡ any (is_limiting key) us =
      any_lem (is_limiting key) (λ n. contains n.rate_limited_keys key) (one-limited key) us new in
    let none_yet : get_call_count key new ≡ 0 = unfold get get_call_count in refl in
    (
      verdict-judged key m ∙ rw (errors, keys, inactive, limited) refl,
      count_lem key us new (omega (arith, none_yet, length-filter (is_call key) us, small))
          ∙ rw none_yet (omega arith),
    )
