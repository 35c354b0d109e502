-- ===== src/Health/Round.antt =====
-- A round of checks writes, for every backend, the status that its result calls for, to the shared
-- map and to the backend's flag alike, and touches nothing else.
use mathlib.Core.List.Memᴰ
use mathlib.Core.List.{Memᴰ}
use sol_rpc_router.Base.{
  ℕ, String, ◌≡◌, ◌≢◌, ◌∙◌, refl, ap, true, false, Option, some, List, [], ◌∷◌, ◌==◌, eq_iff,
  eq_refl, inl, inr, arith, map, eqb, All, All-mem, if◌then◌else◌,
}
use sol_rpc_router.Config.{HealthCheckConfig}
use sol_rpc_router.Status.{BackendHealthStatus, get_status, update_status, get_status-update_status}
use sol_rpc_router.State.{Heap, RuntimeBackend, RouterState}
use sol_rpc_router.Health.{
  HttpClient, Outcome, Observation, perform_health_check, max_slot, observe, or_default,
  current_status, write, apply_results, check_all, health_round,
}

abbrev pub label : RuntimeBackend → String
label b = b.config.label

-- Different labels, and different flags.
abbrev pub IsApart : RuntimeBackend → List RuntimeBackend → Type 0
IsApart b = All (λ (d : RuntimeBackend). (label b ≢ label d) × (b.healthy ≢ d.healthy))

abbrev pub AreApart : List RuntimeBackend → Type 0
AreApart [] = Unit
AreApart (b ∷ bs) = IsApart b bs × AreApart bs

labels_apart :
    (b : RuntimeBackend) (bs : List RuntimeBackend)
    → IsApart b bs
    → All (λ (d : RuntimeBackend). label b ≢ label d) bs
labels_apart b [] _ = tt
labels_apart b (d ∷ bs) (h, hs) = (h.0, labels_apart b bs hs)

flags_apart :
    (b : RuntimeBackend) (bs : List RuntimeBackend)
    → IsApart b bs
    → All (λ (d : RuntimeBackend). b.healthy ≢ d.healthy) bs
flags_apart b [] _ = tt
flags_apart b (d ∷ bs) (h, hs) = (h.1, flags_apart b bs hs)

module _ (cfg : HealthCheckConfig) (top : Option ℕ) (now : String → ℕ) (at : ℕ) where
  -- What the loop records for one backend.
  abbrev recorded : Heap → RuntimeBackend → Outcome → BackendHealthStatus
  recorded h b r =
      observe cfg (record { top = top; outcome = r; now = now (label b) })
        (current_status (h.healths at) (label b))

  abbrev Stored : Heap → RuntimeBackend → BackendHealthStatus → Type 0
  Stored h' b s = (get_status (h'.healths at) (label b) ≡ some s) × (h'.flags b.healthy ≡ s.healthy)

  -- The loop over the results of `results_of` for each backend.
  abbrev run_loop : (RuntimeBackend → Outcome) → List RuntimeBackend → Heap → Heap
  run_loop r bs h =
      apply_results cfg top now at bs (map (λ (b : RuntimeBackend). (label b, r b)) bs) h

  -- One turn of the loop.
  turn : RuntimeBackend → Outcome → Heap → Heap
  turn b r h =
      let s = recorded h b r in
      record h {
        healths = write h.healths at (update_status (h.healths at) (label b) s);
        flags = write h.flags b.healthy s.healthy;
      }

  status-turn :
      (b : RuntimeBackend) (r : Outcome) (h : Heap) (l : String)
      → get_status ((turn b r h).healths at) l
        ≡ (if label b == l then some (recorded h b r) else get_status (h.healths at) l)
  unfolding turn
  status-turn b r h l =
      let here : eqb at at ≡ true = ground arith in
      rw here (get_status-update_status (h.healths at) (label b) l (recorded h b r))

  -- The loop leaves alone what none of its backends names.
  run_loop-status :
      (r : RuntimeBackend → Outcome) (bs : List RuntimeBackend) (h : Heap) (l : String)
      → All (λ (d : RuntimeBackend). l ≢ label d) bs
      → get_status ((run_loop r bs h).healths at) l ≡ get_status (h.healths at) l
  unfolding apply_results turn
  run_loop-status r [] h l _ = refl
  run_loop-status r (b ∷ bs) h l (ne, nes) =
      let other : (label b == l) ≡ false = ground (arith, eq_iff (label b) l) in
      run_loop-status r bs (turn b (r b) h) l nes ∙ (status-turn b (r b) h l ∙ rw other)

  run_loop-flag :
      (r : RuntimeBackend → Outcome) (bs : List RuntimeBackend) (h : Heap) (a : ℕ)
      → All (λ (d : RuntimeBackend). a ≢ d.healthy) bs
      → (run_loop r bs h).flags a ≡ h.flags a
  unfolding apply_results turn
  run_loop-flag r [] h a _ = refl
  run_loop-flag r (b ∷ bs) h a (ne, nes) = run_loop-flag r bs (turn b (r b) h) a nes ∙ ground arith

  -- A turn for another backend does not change what will be recorded.
  recorded-turn :
      (d b : RuntimeBackend) (rd rb : Outcome) (h : Heap)
      → label d ≢ label b
      → recorded (turn d rd h) b rb ≡ recorded h b rb
  recorded-turn d b rd rb h ne =
      let other : (label d == label b) ≡ false = ground (arith, eq_iff (label d) (label b)) in
      let same : get_status ((turn d rd h).healths at) (label b)
          ≡ get_status (h.healths at) (label b) =
        rw (status-turn d rd h (label b), other) in
      ap (λ o. observe cfg (record { top = top; outcome = rb; now = now (label b) }) (or_default o))
        same

  Stored-turn :
      (b : RuntimeBackend) (r : Outcome) (h : Heap) → Stored (turn b r h) b (recorded h b r)
  unfolding turn
  Stored-turn b r h =
      let here : eqb at at ≡ true = ground arith in
      let flag : eqb b.healthy b.healthy ≡ true = ground arith in
      (
        rw here (
            get_status-update_status (h.healths at) (label b) (label b) (recorded h b r)
            ∙ rw eq_refl),
        rw flag,
      )

  run_loop-Stored :
      (r : RuntimeBackend → Outcome) (bs : List RuntimeBackend) (h : Heap) (b : RuntimeBackend)
      → AreApart bs
      → Memᴰ b bs
      → Stored (run_loop r bs h) b (recorded h b (r b))
  unfolding apply_results turn
  run_loop-Stored r [] h b _ m = absurd (Memᴰ.not-nil m)
  run_loop-Stored r (d ∷ bs) h b (apart, aparts) m = elim (Memᴰ.cases_cons m) [
    | inl e ↦
        let (status, flag) = Stored-turn d (r d) h in
        rw e (
          run_loop-status r bs (turn d (r d) h) (label d) (labels_apart d bs apart) ∙ status,
          run_loop-flag r bs (turn d (r d) h) d.healthy (flags_apart d bs apart) ∙ flag,
        )
    | inr t ↦
        let ih = run_loop-Stored r bs (turn d (r d) h) b aparts t in
        rw (recorded-turn d b (r d) (r b) h (All-mem _ bs apart t).0) at ih
  ]

-- What a round of checks observes of a backend.
abbrev pub observation : HttpClient → (String → ℕ) → RouterState → RuntimeBackend → Observation
observation client now st b = record {
  top = max_slot (check_all client st);
  outcome = perform_health_check client b.config st.health_check_config;
  now = now (label b);
}

-- The status that a round gives to a backend: its previous one, or the default, updated by what
-- the round observed of it.
abbrev pub next_status :
    HttpClient → (String → ℕ) → RouterState → Heap → RuntimeBackend → BackendHealthStatus
next_status client now st h b =
    observe st.health_check_config (observation client now st b)
      (current_status (h.healths st.health_state) (label b))

-- After a round over backends with different labels and flags, every backend has in the shared map
-- the status that its own check calls for, and its flag is the `healthy` field of that status.
pub health_round-Stored :
    (client : HttpClient) (now : String → ℕ) (st : RouterState) (h : Heap) (b : RuntimeBackend)
    → AreApart st.backends
    → Memᴰ b st.backends
    → let after = health_round client now st h in
      (get_status (after.healths st.health_state) (label b) ≡ some (next_status client now st h b))
      × (after.flags b.healthy ≡ (next_status client now st h b).healthy)
unfolding health_round
health_round-Stored client now st h b apart m =
    run_loop-Stored st.health_check_config (max_slot (check_all client st)) now st.health_state
      (λ d. perform_health_check client d.config st.health_check_config) st.backends h b apart m

-- A round leaves alone the flag of an address that no backend of its table has.
pub flag-health_round :
    (client : HttpClient) (now : String → ℕ) (st : RouterState) (h : Heap) (a : ℕ)
    → All (λ (d : RuntimeBackend). a ≢ d.healthy) st.backends
    → (health_round client now st h).flags a ≡ h.flags a
unfolding health_round
flag-health_round client now st h a apart =
    run_loop-flag st.health_check_config (max_slot (check_all client st)) now st.health_state
      (λ d. perform_health_check client d.config st.health_check_config) st.backends h a apart

-- A round leaves alone the status of every label and the flag of every address that no backend of
-- its table has.
pub health_round-frame :
    (client : HttpClient) (now : String → ℕ) (st : RouterState) (h : Heap) (l : String) (a : ℕ)
    → All (λ (d : RuntimeBackend). l ≢ label d) st.backends
    → All (λ (d : RuntimeBackend). a ≢ d.healthy) st.backends
    → let after = health_round client now st h in
      (get_status (after.healths st.health_state) l ≡ get_status (h.healths st.health_state) l)
      × (after.flags a ≡ h.flags a)
unfolding health_round
health_round-frame client now st h l a ls apart = (
  run_loop-status st.health_check_config (max_slot (check_all client st)) now st.health_state
      (λ d. perform_health_check client d.config st.health_check_config) st.backends h l ls,
  flag-health_round client now st h a apart,
)

next-apply_results :
    (cfg : HealthCheckConfig) (top : Option ℕ) (now : String → ℕ) (at : ℕ)
    (bs : List RuntimeBackend) (rs : List (String × Outcome)) (h : Heap)
    → (apply_results cfg top now at bs rs h).next ≡ h.next
unfolding apply_results
next-apply_results cfg top now at [] rs h = refl
next-apply_results cfg top now at (b ∷ bs) [] h = refl
next-apply_results cfg top now at (b ∷ bs) ((l, r) ∷ rs) h =
    next-apply_results cfg top now at bs rs (record h {
      healths = write h.healths at (update_status (h.healths at) l (new_status l r));
      flags = write h.flags b.healthy (new_status l r).healthy;
    })
  where
    new_status : String → Outcome → BackendHealthStatus
    new_status l r =
        observe cfg (record { top = top; outcome = r; now = now l })
          (current_status (h.healths at) l)

-- A round takes no new address.
pub next-health_round :
    (client : HttpClient) (now : String → ℕ) (st : RouterState) (h : Heap)
    → (health_round client now st h).next ≡ h.next
unfolding health_round
next-health_round client now st h =
    next-apply_results st.health_check_config (max_slot (check_all client st)) now st.health_state
      st.backends (check_all client st) h
