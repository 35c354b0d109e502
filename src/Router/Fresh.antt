-- ===== src/Router/Fresh.antt =====
-- Allocating the flags of a table: they are new, different, and start as asked.
use sol_rpc_router.Base.{
  ℕ, ◌+◌, ◌≤◌, ◌<◌, ◌≡◌, ◌≢◌, ◌∙◌, refl, ap, Bool, true, false, List, [], ◌∷◌, arith, eqb, All, map,
}
use sol_rpc_router.Config.{Backend}
use sol_rpc_router.Config.Spec.{Distinct}
use sol_rpc_router.State.{Heap, RuntimeBackend}
use sol_rpc_router.Health.Round.{label, IsApart, AreApart}
use sol_rpc_router.Router.{alloc_backends, new_flag}

-- The new addresses lie between the old and the new end.
abbrev pub IsBetween : ℕ → ℕ → List RuntimeBackend → Type 0
IsBetween lo hi = All (λ (b : RuntimeBackend). (lo ≤ b.healthy) × (b.healthy < hi))

IsBetween-lower :
    (lo lo' hi : ℕ) (bs : List RuntimeBackend) → lo' ≤ lo → IsBetween lo hi bs → IsBetween lo' hi bs
IsBetween-lower lo lo' hi [] l h = tt
IsBetween-lower lo lo' hi (b ∷ bs) l (h, hs) =
    ((omega arith, omega arith), IsBetween-lower lo lo' hi bs l hs)

module _ (init : Backend → Bool) where
  pub next-alloc : (bs : List Backend) (h : Heap) → h.next ≤ (alloc_backends init bs h).1.next
  unfolding alloc_backends
  next-alloc [] h = omega arith
  next-alloc (b ∷ bs) h = omega (arith, next-alloc bs (new_flag (init b) h))

  -- The health states are not touched.
  pub healths-alloc :
      (bs : List Backend) (h : Heap) → (alloc_backends init bs h).1.healths ≡ h.healths
  unfolding alloc_backends
  healths-alloc [] h = refl
  healths-alloc (b ∷ bs) h = healths-alloc bs (new_flag (init b) h)

  -- An address in use keeps its flag.
  pub flags-alloc_old :
      (bs : List Backend) (h : Heap) (a : ℕ)
      → a < h.next
      → (alloc_backends init bs h).1.flags a ≡ h.flags a
  unfolding alloc_backends
  flags-alloc_old [] h a l = refl
  flags-alloc_old (b ∷ bs) h a l =
      let other : eqb h.next a ≡ false = ground arith in
      flags-alloc_old bs (new_flag (init b) h) a (omega arith) ∙ rw other

  pub alloc-IsBetween :
      (bs : List Backend) (h : Heap)
      → IsBetween h.next (alloc_backends init bs h).1.next (alloc_backends init bs h).0
  unfolding alloc_backends
  alloc-IsBetween [] h = tt
  alloc-IsBetween (b ∷ bs) h = (
    (omega arith, omega (arith, next-alloc bs (new_flag (init b) h))),
    IsBetween-lower (h.next + 1) h.next (alloc_backends init bs (new_flag (init b) h)).1.next
        (alloc_backends init bs (new_flag (init b) h)).0 (omega arith)
        (alloc-IsBetween bs (new_flag (init b) h)),
  )

  -- Every new flag starts as asked.
  pub flags-alloc_new :
      (bs : List Backend) (h : Heap)
      → All
          (λ (b : RuntimeBackend). (alloc_backends init bs h).1.flags b.healthy ≡ init b.config)
          (alloc_backends init bs h).0
  unfolding alloc_backends
  flags-alloc_new [] h = tt
  flags-alloc_new (b ∷ bs) h =
      let same : eqb h.next h.next ≡ true = ground arith in
      (
        flags-alloc_old bs (new_flag (init b) h) h.next (omega arith) ∙ rw same,
        flags-alloc_new bs (new_flag (init b) h),
      )

  -- The table's configurations are the given ones.
  pub configs-alloc :
      (bs : List Backend) (h : Heap)
      → map (λ (b : RuntimeBackend). b.config) (alloc_backends init bs h).0 ≡ bs
  unfolding alloc_backends
  configs-alloc [] h = refl
  configs-alloc (b ∷ bs) h =
      ap (λ (l : List Backend). b ∷ l) (configs-alloc bs (new_flag (init b) h))

-- A property of configurations, carried over to a table that has them.
pub All-configs {κ} :
    (P : Backend → Type κ) (bs : List RuntimeBackend)
    → All P (map (λ (b : RuntimeBackend). b.config) bs)
    → All (λ (b : RuntimeBackend). P b.config) bs
All-configs P [] h = tt
All-configs P (b ∷ bs) (h, hs) = (h, All-configs P bs hs)

IsBetween-IsApart :
    (b : RuntimeBackend) (lo hi : ℕ) (bs : List RuntimeBackend)
    → b.healthy < lo
    → IsBetween lo hi bs
    → All (λ (d : RuntimeBackend). label b ≢ label d) bs
    → IsApart b bs
IsBetween-IsApart b lo hi [] l _ _ = tt
IsBetween-IsApart b lo hi (d ∷ bs) l (h, hs) (k, ks) =
    ((k, omega arith), IsBetween-IsApart b lo hi bs l hs ks)

-- A table with different labels has backends that are apart.
pub alloc-AreApart :
    (init : Backend → Bool) (bs : List Backend) (h : Heap)
    → Distinct bs
    → AreApart (alloc_backends init bs h).0
unfolding alloc_backends
alloc-AreApart init [] h _ = tt
alloc-AreApart init (b ∷ bs) h (ne, d) =
    let rest = alloc_backends init bs (new_flag (init b) h) in
    (
      IsBetween-IsApart (record { config = b; healthy = h.next }) (h.next + 1) rest.1.next rest.0
          (omega arith) (alloc-IsBetween init bs (new_flag (init b) h))
          (All-configs (λ (e : Backend). b.label ≢ e.label) rest.0
            (rw (configs-alloc init bs (new_flag (init b) h)) ne)),
      alloc-AreApart init bs (new_flag (init b) h) d,
    )
