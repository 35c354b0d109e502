-- ===== src/KeyStore/Rate.antt =====
-- The rate limit: within one window exactly `limit` calls are let through, key by key.
use text.Mathlib.TextLemmas.{append_cancel_left}
use sol_rpc_router.Base.{
  ℕ, zero, suc, ◌+◌, ◌-◌, ◌<◌, min, String, ◌≡◌, ◌≢◌, ◌∙◌, refl, ap, ◌↔◌, ◌⊎◌, inl, inr, Bool, true,
  false, none, some, ◌==◌, eq_iff, eq_refl, eqb, ltb, not, arith, Result, ok, err, Bool-cases,
  Result-cases, if◌then◌else◌,
}
use sol_rpc_router.KeyStore.{
  KeyInfo, Answer, Redis, Cache, Session, rate_limit_of, script, check_rate_limit, rate_limited,
  get_key_info, check_info, validate_key,
}

-- What Redis documents of INCR and EXPIRE, within a window in which no counter expires: `count` is
-- the number that a key holds, 0 where it is not there. A script that answers has run, and one that
-- fails has run or not.
pub record IsCounter (r : Redis) (count : String → r.Db → ℕ) : Type 0 where
  pub incr_self : (k : String) (db : r.Db) → (r.incr k db).0 ≡ count k db + 1
  pub count-incr :
      (k j : String) (db : r.Db)
      → count j (r.incr k db).1 ≡ (if k == j then count k db + 1 else count j db)
  pub count-expire : (k j : String) (n : ℕ) (db : r.Db) → count j (r.expire k n db) ≡ count j db
  pub invoke_done :
      (f : r.Db → ℕ × r.Db) (db : r.Db) (n : ℕ)
      → (r.invoke f db).0 ≡ ok n
      → (n ≡ (f db).0) × ((r.invoke f db).1 ≡ (f db).1)
  pub invoke_failed :
      (f : r.Db → ℕ × r.Db) (db : r.Db) (e : String)
      → (r.invoke f db).0 ≡ err e
      → ((r.invoke f db).1 ≡ db) ⊎ ((r.invoke f db).1 ≡ (f db).1)

abbrev pub is_allowed : Result String Bool → Bool
is_allowed (ok b) = b
is_allowed (err _) = false

accepts :
    (a : Result String Bool) (i : KeyInfo) → is_allowed a ≡ true → rate_limited a i ≡ ok (some i)
accepts (ok true) i h = refl
accepts (ok false) i h = cc
accepts (err e) i h = cc

some_ok-injective : {i j : KeyInfo} → ◌≡◌ {A = Answer} (ok (some i)) (ok (some j)) → i ≡ j
some_ok-injective h = cc

module _ (r : Redis) where
  -- How many of `n` checks in a row let the caller through.
  unfoldable pub let_through : ℕ → String → ℕ → r.Db → ℕ
  let_through zero key limit db = 0
  let_through (suc n) key limit db =
      let (allowed, db') = check_rate_limit r key limit db in
      (if is_allowed allowed then 1 else 0) + let_through n key limit db'

  -- The script of the key's rate limit is answered.
  abbrev pub Answers : String → r.Db → Type 0
  Answers key db = (n : ℕ) × ((r.invoke (script r (rate_limit_of key)) db).0 ≡ ok n)

  module _ (count : String → r.Db → ℕ) (law : IsCounter r count) where
    pub count-script :
        (k j : String) (db : r.Db)
        → count j (script r k db).1 ≡ (if k == j then count k db + 1 else count j db)
    unfolding script
    count-script k j db = elim (Bool-cases (eqb (r.incr k db).0 1)) [
      | inl first ↦ rw first (law.count-expire k j 1 (r.incr k db).1 ∙ law.count-incr k j db)
      | inr later ↦ rw later (law.count-incr k j db)
    ]

    script_count : (k : String) (db : r.Db) → (script r k db).0 ≡ count k db + 1
    unfolding script
    script_count k db = law.incr_self k db

    -- A check that is answered, and one that fails.
    check_done :
        (key : String) (limit n : ℕ) (db : r.Db)
        → limit ≢ 0
        → (r.invoke (script r (rate_limit_of key)) db).0 ≡ ok n
        → check_rate_limit r key limit db ≡ (
          ok (not (ltb limit (count (rate_limit_of key) db + 1))),
          (script r (rate_limit_of key) db).1,
        )
    unfolding check_rate_limit
    check_done key limit n db h answers =
        let limited : eqb limit 0 ≡ false = ground arith in
        let (same, ran) = law.invoke_done (script r (rate_limit_of key)) db n answers in
        let counts : n ≡ count (rate_limit_of key) db + 1 =
          same ∙ script_count (rate_limit_of key) db in
        rw (limited, answers, ran, counts) refl

    check_failed :
        (key : String) (limit : ℕ) (e : String) (db : r.Db)
        → limit ≢ 0
        → (r.invoke (script r (rate_limit_of key)) db).0 ≡ err e
        → ((check_rate_limit r key limit db).0 ≡ err e)
          × (((check_rate_limit r key limit db).1 ≡ db)
              ⊎ ((check_rate_limit r key limit db).1 ≡ (script r (rate_limit_of key) db).1))
    unfolding check_rate_limit
    check_failed key limit e db h fails =
        let limited : eqb limit 0 ≡ false = ground arith in
        let ran = law.invoke_failed (script r (rate_limit_of key)) db e fails in
        (rw (limited, fails) refl, rw limited ran)

    -- A check under a limit: it is answered, and lets the caller through if the counter was below
    -- the limit, or it fails; a counter is left as it was, or counted up if it is the key's own.
    pub check_cases :
        (key : String) (limit : ℕ) (db : r.Db)
        → limit ≢ 0
        → (Answers key db
            × (check_rate_limit r key limit db ≡ (
              ok (not (ltb limit (count (rate_limit_of key) db + 1))),
              (script r (rate_limit_of key) db).1,
            )))
          ⊎ ((e : String) × ((r.invoke (script r (rate_limit_of key)) db).0 ≡ err e)
              × ((check_rate_limit r key limit db).0 ≡ err e)
              × (((check_rate_limit r key limit db).1 ≡ db)
                  ⊎ ((check_rate_limit r key limit db).1 ≡ (script r (rate_limit_of key) db).1)))
    check_cases key limit db h =
        elim (Result-cases (r.invoke (script r (rate_limit_of key)) db).0) [
          | inl (n, answers) ↦ inl ((n, answers), check_done key limit n db h answers)
          | inr (e, fails) ↦
              let (failed, ran) = check_failed key limit e db h fails in inr (e, fails, failed, ran)
        ]

    -- With a limit that is not 0, of `n` checks in a row within one window, all answered, as many
    -- are let through as the counter of the key leaves below the limit, or all, if that is fewer.
    pub let_through_lem :
        (n : ℕ) (key : String) (limit : ℕ) (db : r.Db)
        → limit ≢ 0
        → ((d : r.Db) → Answers key d)
        → let_through n key limit db ≡ min n (limit - count (rate_limit_of key) db)
    unfolding let_through
    let_through_lem zero key limit db h answers = omega arith
    let_through_lem (suc n) key limit db h answers =
        let k = rate_limit_of key in
        let next : count k (script r k db).1 ≡ count k db + 1 =
          count-script k k db ∙ rw (eq_refl k) in
        let (m, answered) = answers db in
        rw (check_done key limit m db h answered)
          (ground (arith, next, let_through_lem n key limit (script r k db).1 h answers))

    -- A check leaves the counter of every other key as it was.
    pub check_rate_limit-other :
        (key other : String) (limit : ℕ) (db : r.Db)
        → key ≢ other
        → count (rate_limit_of other) (check_rate_limit r key limit db).1
          ≡ count (rate_limit_of other) db
    check_rate_limit-other key other limit db ne = elim (Bool-cases (eqb limit 0)) [
      | inl unlimited ↦ unfold check_rate_limit in rw unlimited
      | inr limited ↦
          let differ : (rate_limit_of key == rate_limit_of other) ≡ false = ground (
            arith,
            eq_iff (rate_limit_of key) (rate_limit_of other),
            λ (e : rate_limit_of key ≡ rate_limit_of other).
                ne (append_cancel_left "rate_limit:" key other e),
          ) in
          let kept : count (rate_limit_of other) (script r (rate_limit_of key) db).1
              ≡ count (rate_limit_of other) db =
            count-script (rate_limit_of key) (rate_limit_of other) db ∙ rw differ in
          elim (check_cases key limit db (ground arith)) [
            | inl (_, checked) ↦ ap (λ x. count (rate_limit_of other) (x.1)) checked ∙ kept
            | inr (_, _, _, inl still) ↦ ap (count (rate_limit_of other)) still
            | inr (_, _, _, inr ran) ↦ ap (count (rate_limit_of other)) ran ∙ kept
          ]
    ]

    allowed_iff :
        (key : String) (limit : ℕ) (db : r.Db)
        → (is_allowed (check_rate_limit r key limit db).0 ≡ true)
          ↔ ((limit ≡ 0) ⊎ (Answers key db × (count (rate_limit_of key) db < limit)))
    allowed_iff key limit db = elim (Bool-cases (eqb limit 0)) [
      | inl unlimited ↦
          let free : is_allowed (check_rate_limit r key limit db).0 ≡ true =
            unfold check_rate_limit in rw unlimited in
          (λ _. inl (ground arith), λ _. free)
      | inr limited ↦ elim (check_cases key limit db (ground arith)) [
        | inl (answers, checked) ↦ rw checked (
          λ h. inr (answers, ground arith),
          λ h. elim h [ inl zero_limit ↦ absurd (ground arith) | inr (_, under) ↦ ground arith ],
        )
        | inr (e, fails, failed, _) ↦ rw failed (
          λ h. cc,
          λ h. elim h [
            | inl zero_limit ↦ absurd (ground arith)
            | inr ((n, answered), _) ↦ cc (fails, answered)
          ],
        )
      ]
    ]

    module _ (c : Cache) where
      check_info_iff :
          (key : String) (answer : Answer) (s : Session r c) (info : KeyInfo)
          → ((check_info r c key answer s).0 ≡ ok (some info)) ↔ (
              (answer ≡ ok (some info))
              × (is_allowed (check_rate_limit r key info.rate_limit s.db).0 ≡ true))
      unfolding check_info
      check_info_iff key (err e) s info = (λ h. cc, λ h. cc (h.0))
      check_info_iff key (ok none) s info = (λ h. cc, λ h. cc (h.0))
      check_info_iff key (ok (some i)) s info =
          (accepted (check_rate_limit r key i.rate_limit s.db).0 refl, back)
        where
          accepted :
              (a : Result String Bool)
              → (check_rate_limit r key i.rate_limit s.db).0 ≡ a
              → rate_limited a i ≡ ok (some info)
              → ◌≡◌ {A = Answer} (ok (some i)) (ok (some info))
                × (is_allowed (check_rate_limit r key info.rate_limit s.db).0 ≡ true)
          accepted (ok true) e h = let same : i ≡ info = cc in (h, rw (← same) (ap is_allowed e))
          accepted (ok false) e h = cc
          accepted (err m) e h = cc

          back :
              ◌≡◌ {A = Answer} (ok (some i)) (ok (some info))
                × (is_allowed (check_rate_limit r key info.rate_limit s.db).0 ≡ true)
              → rate_limited (check_rate_limit r key i.rate_limit s.db).0 i ≡ ok (some info)
          back h =
              let same : i ≡ info = some_ok-injective h.0 in
              accepts (check_rate_limit r key i.rate_limit s.db).0 i (rw (← same) at (h.1)) ∙ h.0

      -- A key is accepted with its information exactly if the lookup gives that information and
      -- either it has no limit, or the script of the rate limit is answered and the key's counter
      -- was still below the limit. Where the script fails, a key with a limit is not accepted.
      pub validate_key_iff :
          (key : String) (s : Session r c) (info : KeyInfo)
          → ((validate_key r c key s).0 ≡ ok (some info)) ↔ (
              ((get_key_info r c key s).0 ≡ ok (some info))
              × ((info.rate_limit ≡ 0)
                  ⊎ (Answers key (get_key_info r c key s).1.db
                      × (count (rate_limit_of key) (get_key_info r c key s).1.db
                          < info.rate_limit))))
      unfolding validate_key
      validate_key_iff key s info =
          let looked =
            check_info_iff key (get_key_info r c key s).0 (get_key_info r c key s).1 info in
          let test = allowed_iff key info.rate_limit (get_key_info r c key s).1.db in
          (λ h. ((looked.0 h).0, test.0 (looked.0 h).1), λ h. looked.1 (h.0, test.1 h.1))
