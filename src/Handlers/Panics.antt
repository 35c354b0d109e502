-- ===== src/Handlers/Panics.antt =====
-- `proxy`: where the slice of the key for the log panics.
use sol_rpc_router.Base.{
  arith, eq_iff, Panic, ◌⊎◌, ◌↔◌, ap, and_then, subst, String, ◌≡◌, refl, inl, inr, Bool, true,
  false, Option, none, some, ◌==◌, ok, err, done, panic, char_boundary, Bool-cases,
}
use sol_rpc_router.State.Select.{select_backend-IsTarget}
use sol_rpc_router.KeyStore.{Answer, KeyStore}
use sol_rpc_router.Handlers.{
  Env, Request, Reply, has_prefix, log_prefix, refuse, routed_to, validated, proxy,
}

-- Where the log takes `info`, a key that the store does not know, whose sixth byte or whose end
-- before it does not fall between two characters, makes `proxy` panic instead of answering 401.
pub proxy-panics :
    {S : Type 0} (env : Env) (store : KeyStore S) (key : String) (req : Request) (s : S)
    → env.logs_info ≡ true
    → has_prefix key ≡ false
    → (store key s).0 ≡ ok none
    → (proxy env store (some key) req s).0 ≡ panic char_boundary
unfolding proxy validated
proxy-panics env store key req s log off unknown = rw (unknown, validated) (rw (log, off))

log_prefix-done :
    (enabled : Bool) (key : String) → has_prefix key ≡ true → log_prefix enabled key ≡ done tt
log_prefix-done true key h = rw h
log_prefix-done false key h = refl

validated-done :
    (env : Env) (key : String) (answer : Answer) (req : Request)
    → has_prefix key ≡ true
    → (reply : Reply) × (validated env key answer req ≡ done reply)
unfolding validated
validated-done env key (ok (some info)) req h =
    elim (select_backend-IsTarget env.draw env.heap env.state req.rpc_method) [
      | inl (nothing, _) ↦ (refuse 503 "No healthy backends available", rw nothing)
      | inr (t, chosen, _) ↦
          (routed_to env (record req { client_owner = some info.owner }) (some t), rw chosen)
    ]
validated-done env key (ok none) req h =
    (refuse 401 "Unauthorized", rw (log_prefix-done env.logs_info key h))
validated-done env key (err m) req h = elim (Bool-cases (m == "Rate limit exceeded")) [
  | inl over ↦
      (refuse 429 "Rate limit exceeded", rw over (rw (log_prefix-done env.logs_warn key h)))
  | inr other ↦ (refuse 500 "Internal Server Error", rw other)
]

-- A key with a proper prefix never makes `proxy` panic.
pub proxy-done :
    {S : Type 0} (env : Env) (store : KeyStore S) (api_key : Option String) (req : Request) (s : S)
    → ((key : String) → api_key ≡ some key → has_prefix key ≡ true)
    → (reply : Reply) × ((proxy env store api_key req s).0 ≡ done reply)
unfolding proxy
proxy-done env store none req s h = (_, refl)
proxy-done env store (some key) req s h = validated-done env key (store key s).0 req (h key refl)

-- Why `proxy` panics: a log line slices the key off a character boundary.
abbrev pub Slices : Env → Answer → String → Type 0
Slices env answer key =
    (has_prefix key ≡ false)
    × (((env.logs_info ≡ true) × (answer ≡ ok none))
        ⊎ ((env.logs_warn ≡ true) × (answer ≡ err "Rate limit exceeded")))

log_prefix-panic :
    (enabled : Bool) (key : String) (why : Panic) (b : Reply)
    → and_then (log_prefix enabled key) (λ _. done b) ≡ panic why
    → (enabled ≡ true) × (has_prefix key ≡ false) × (why ≡ char_boundary)
log_prefix-panic true key why b e = elim (Bool-cases (has_prefix key)) [
  | inl fine ↦ absurd (ground arith)
  | inr off ↦ (refl, off, ground arith)
]
log_prefix-panic false key why b e = cc

validated-panic :
    (env : Env) (key : String) (answer : Answer) (req : Request) (why : Panic)
    → validated env key answer req ≡ panic why
    → Slices env answer key × (why ≡ char_boundary)
unfolding validated
validated-panic env key (ok (some info)) req why e =
    elim (select_backend-IsTarget env.draw env.heap env.state req.rpc_method) [
      | inl (nothing, _) ↦ cc (rw nothing at e)
      | inr (t, chosen, _) ↦ cc (rw chosen at e)
    ]
validated-panic env key (ok none) req why e =
    let (logs, off, same) = log_prefix-panic env.logs_info key why _ e in
    ((off, inl (logs, refl)), same)
validated-panic env key (err m) req why e = elim (Bool-cases (m == "Rate limit exceeded")) [
  | inl over ↦
      let (logs, off, same) = log_prefix-panic env.logs_warn key why _ (rw over at e) in
      ((off, inr (logs, ap err ((eq_iff m "Rate limit exceeded").0 over))), same)
  | inr other ↦ cc (rw other at e)
]

validated-Slices :
    (env : Env) (key : String) (answer : Answer) (req : Request)
    → Slices env answer key
    → validated env key answer req ≡ panic char_boundary
unfolding validated
validated-Slices env key answer req (off, inl (logs, unknown)) =
    rw (unknown, validated) (rw (logs, off) refl)
validated-Slices env key answer req (off, inr (logs, over)) =
    rw (over, validated) (rw (logs, off) refl)

-- `proxy` panics exactly where a log line slices the key off a character boundary: the log takes
-- `info` and the store does not know the key, or it takes `warn` and the key is rate limited, and
-- the sixth byte of the key, or the end of a shorter one, lies inside a character.
pub proxy-panics_iff :
    {S : Type 0} (env : Env) (store : KeyStore S) (api_key : Option String) (req : Request) (s : S)
    (why : Panic)
    → ((proxy env store api_key req s).0 ≡ panic why) ↔ (
        (key : String) × (api_key ≡ some key)
        × Slices env (store key s).0 key
        × (why ≡ char_boundary))
unfolding proxy
proxy-panics_iff env store none req s why = (λ e. cc, λ (key, given, _, _). cc)
proxy-panics_iff env store (some key) req s why = (
  λ e.
      let (slices, same) = validated-panic env key (store key s).0 req why e in
      (key, refl, slices, same),
  λ (k, given, slices, same).
      let named : k ≡ key = cc (given) in
      rw
        (
          same,
          validated-Slices env key (store key s).0 req
              (subst (λ x. Slices env (store x s).0 x) named slices),
        )
        refl,
)
