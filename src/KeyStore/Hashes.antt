-- ===== src/KeyStore/Hashes.antt =====
-- What the calls of the router change of the keys' hashes: nothing.
use Prim.Native.String
use Prim.Native.String.{slice}
use text.Mathlib.TextLemmas.{append_assoc}
use text.Mathlib.TextPositions.{slice-append_left}
use sol_rpc_router.Base.{
  eq_iff, ℕ, String, ◌≡◌, ◌≢◌, ◌∙◌, refl, sym, ap, subst, inl, inr, none, some, arith, ok, err, eqb,
  Bool-cases, Option-cases, Result-cases,
}
use sol_rpc_router.KeyStore.{
  Answer, Redis, Cache, Session, api_key_of, rate_limit_of, fetch, script, check_rate_limit,
  get_key_info, check_info, validate_key,
}

-- The answers of Redis on the hash of a key are the same.
pub record AreSame (r : Redis) (k : String) (db db' : r.Db) : Type 0 where
  pub exists : r.exists k db ≡ r.exists k db'
  pub texts : (f : String) → r.hget k f db ≡ r.hget k f db'
  pub numbers : (f : String) → r.hget_u64 k f db ≡ r.hget_u64 k f db'

-- What Redis documents of INCR and EXPIRE, and of a script, which runs or fails as a whole: no key
-- changes but the one that they name.
pub record IsLocalCounter (r : Redis) : Type 0 where
  pub incr : (j k : String) (db : r.Db) → j ≢ k → AreSame r j (r.incr k db).1 db
  pub expire : (j k : String) (n : ℕ) (db : r.Db) → j ≢ k → AreSame r j (r.expire k n db) db
  pub invoke :
      (j : String) (f : r.Db → ℕ × r.Db) (db : r.Db)
      → AreSame r j (f db).1 db
      → AreSame r j (r.invoke f db).1 db

-- The router's counters are not the keys' hashes.
no_counter : (j k : String) → api_key_of j ≢ rate_limit_of k
no_counter j k e =
    let split : rate_limit_of k ≡ String.◌++◌ "rate_lim" (String.◌++◌ "it:" k) =
      append_assoc "rate_lim" "it:" k in
    let heads : ◌≡◌ {A = String} "api_key:" "rate_lim" =
      sym (slice-append_left "api_key:" j)
      ∙ (ap (λ t. slice t 0 8) (e ∙ split) ∙ slice-append_left "rate_lim" (String.◌++◌ "it:" k)) in
    cc ((eq_iff "api_key:" "rate_lim").1 heads)

-- The lookup leaves the database as it is.
pub db-get_key_info :
    (r : Redis) (c : Cache) (k : String) (s : Session r c) → (get_key_info r c k s).1.db ≡ s.db
unfolding get_key_info
db-get_key_info r c k s = elim (Option-cases (c.lookup k s.now s.cache)) [
  | inr (info, hit) ↦ rw (hit, get_key_info) refl
  | inl miss ↦ elim (Result-cases (fetch r k s.db)) [
    | inl (info, found) ↦ rw (miss, get_key_info, found) refl
    | inr (e, failed) ↦ rw (miss, get_key_info, failed) refl
  ]
]

module _ (r : Redis) where
  pub AreSame-refl : (k : String) (db : r.Db) → AreSame r k db db
  AreSame-refl k db = record { exists = refl; texts = λ f. refl; numbers = λ f. refl }

  pub AreSame-trans :
      (k : String) (a b c : r.Db) → AreSame r k a b → AreSame r k b c → AreSame r k a c
  AreSame-trans k a b c p q = record {
    exists = p.exists ∙ q.exists;
    texts = λ f. p.texts f ∙ q.texts f;
    numbers = λ f. p.numbers f ∙ q.numbers f;
  }

  -- The lookup reads nothing but the hash of its key.
  pub fetch-AreSame :
      (j : String) (db db' : r.Db) → AreSame r (api_key_of j) db db' → fetch r j db ≡ fetch r j db'
  unfolding fetch
  fetch-AreSame j db db' s =
      ground (arith, s.exists, s.texts "owner", s.texts "active", s.numbers "rate_limit")

  module _ (law : IsLocalCounter r) (j : String) where
    pub script-AreSame :
        (k : String) (db : r.Db) → AreSame r (api_key_of j) (script r (rate_limit_of k) db).1 db
    unfolding script
    script-AreSame k db =
        let at = rate_limit_of k in
        let counted = law.incr (api_key_of j) at db (no_counter j k) in
        elim (Bool-cases (eqb (r.incr at db).0 1)) [
          | inl first ↦ rw first (
              AreSame-trans (api_key_of j) _ (r.incr at db).1 db
                (law.expire (api_key_of j) at 1 (r.incr at db).1 (no_counter j k)) counted)
          | inr later ↦ rw later counted
        ]

    pub limit-AreSame :
        (k : String) (limit : ℕ) (db : r.Db)
        → AreSame r (api_key_of j) (check_rate_limit r k limit db).1 db
    unfolding check_rate_limit
    limit-AreSame k limit db = elim (Bool-cases (eqb limit 0)) [
      | inl unlimited ↦ rw unlimited (AreSame-refl (api_key_of j) db)
      | inr limited ↦ rw limited (law.invoke (api_key_of j) _ db (script-AreSame k db))
    ]

    module _ (c : Cache) where
      info-AreSame :
          (k : String) (a : Answer) (s : Session r c)
          → AreSame r (api_key_of j) (check_info r c k a s).1.db s.db
      unfolding check_info
      info-AreSame k (err e) s = AreSame-refl (api_key_of j) s.db
      info-AreSame k (ok none) s = AreSame-refl (api_key_of j) s.db
      info-AreSame k (ok (some info)) s = limit-AreSame k info.rate_limit s.db

      -- A call for any key leaves the hashes of the keys as they are.
      pub validate_key-AreSame :
          (k : String) (s : Session r c) → AreSame r (api_key_of j) (validate_key r c k s).1.db s.db
      unfolding validate_key
      validate_key-AreSame k s =
          let looked = get_key_info r c k s in
          subst (λ db. AreSame r (api_key_of j) (check_info r c k looked.0 looked.1).1.db db)
            (db-get_key_info r c k s) (info-AreSame k looked.0 looked.1)
