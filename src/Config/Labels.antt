-- ===== src/Config/Labels.antt =====
-- The map of labels that `load_config` collects: its keys, and when its size shows duplicates.
use mathlib.Core.List.Memᴰ
use mathlib.Core.List.{Memᴰ}
use sol_rpc_router.Base.{
  ◌+◌, ◌≤◌, String, ◌≡◌, ◌≢◌, refl, ◌↔◌, inl, inr, true, false, ◌||◌, List, [], ◌∷◌, ◌==◌, eq_iff,
  arith, length, any, All, HashMap, insert, contains_key, contains_key-insert, Bool-cases,
}
use sol_rpc_router.Config.{Backend, collect_labels}
use sol_rpc_router.Config.Spec.{Distinct, IsLabel}

length-insert_new :
    (k v : String) (m : HashMap String)
    → contains_key k m ≡ false
    → length (insert k v m) ≡ length m + 1
unfolding insert contains_key
length-insert_new k v [] h = refl
length-insert_new k v ((j, w) ∷ m) h = ground (arith, length-insert_new k v m)

length-insert_old :
    (k v : String) (m : HashMap String) → contains_key k m ≡ true → length (insert k v m) ≡ length m
unfolding insert contains_key
length-insert_old k v [] h = cc
length-insert_old k v ((j, w) ∷ m) h = ground (arith, length-insert_old k v m)

length-collect_labels-le :
    (m : HashMap String) (bs : List Backend) → length (collect_labels m bs) ≤ length m + length bs
unfolding collect_labels
length-collect_labels-le m [] = ground arith
length-collect_labels-le m (b ∷ bs) = ground (
  arith,
  length-collect_labels-le (insert b.label b.url m) bs,
  length-insert_new b.label b.url m,
  length-insert_old b.label b.url m,
)

-- No label of the list is a key of the map.
abbrev pub Fresh : HashMap String → List Backend → Type 0
Fresh m = All (λ (b : Backend). contains_key b.label m ≡ false)

pub Fresh-nil : (bs : List Backend) → Fresh [] bs
unfolding contains_key
Fresh-nil [] = tt
Fresh-nil (b ∷ bs) = (refl, Fresh-nil bs)

Fresh-insert :
    (b : Backend) (m : HashMap String) (bs : List Backend)
    → Fresh (insert b.label b.url m) bs ↔ (Fresh m bs × All (λ (d : Backend). b.label ≢ d.label) bs)
Fresh-insert b m [] = (λ _. (tt, tt), λ _. tt)
Fresh-insert b m (d ∷ bs) =
    let ih = Fresh-insert b m bs in
    ground (arith, ih, contains_key-insert b.label d.label b.url m, eq_iff b.label d.label)

-- The map is as long as the list exactly if no label repeats.
pub length-collect_labels_iff :
    (m : HashMap String) (bs : List Backend)
    → (length (collect_labels m bs) ≡ length m + length bs) ↔ (Fresh m bs × Distinct bs)
unfolding collect_labels
length-collect_labels_iff m [] = (λ _. (tt, tt), λ _. ground arith)
length-collect_labels_iff m (b ∷ bs) = elim (Bool-cases (contains_key b.label m)) [
  | inl old ↦
      let bound = length-collect_labels-le (insert b.label b.url m) bs in
      let same = length-insert_old b.label b.url m old in
      (λ e. absurd (omega arith), λ h. absurd (ground arith))
  | inr new ↦
      let longer = length-insert_new b.label b.url m new in
      let ih = length-collect_labels_iff (insert b.label b.url m) bs in
      let fresh = Fresh-insert b m bs in
      (
        λ e.
            let (f, d) = ih.0 (omega arith) in
            let (f', apart) = fresh.0 f in ((new, f'), (apart, d)),
        λ h. let back = ih.1 (fresh.1 (h.0.1, h.1.0), h.1.1) in omega arith,
      )
]

contains_key-collect_labels :
    (l : String) (m : HashMap String) (bs : List Backend)
    → contains_key l (collect_labels m bs)
      ≡ (contains_key l m || any (λ (b : Backend). b.label == l) bs)
unfolding collect_labels
contains_key-collect_labels l m [] = ground arith
contains_key-collect_labels l m (b ∷ bs) = ground (
  arith,
  contains_key-collect_labels l (insert b.label b.url m) bs,
  contains_key-insert b.label l b.url m,
)

any_label :
    (l : String) (bs : List Backend) → any (λ (b : Backend). b.label == l) bs ≡ true → IsLabel bs l
any_label l [] h = cc
any_label l (b ∷ bs) h = elim (Bool-cases (b.label == l)) [
  | inl e ↦ (b, Memᴰ.head refl, (eq_iff b.label l).0 e)
  | inr e ↦ let (d, m, same) = any_label l bs (rw e at h) in (d, Memᴰ.tail m, same)
]

any_of_IsLabel :
    (l : String) (bs : List Backend) → IsLabel bs l → any (λ (b : Backend). b.label == l) bs ≡ true
any_of_IsLabel l [] (d, m, e) = absurd (Memᴰ.not-nil m)
any_of_IsLabel l (b ∷ bs) (d, m, e) = elim (Memᴰ.cases_cons m) [
  | inl same ↦ rw ((eq_iff b.label l).1 (rw same at e))
  | inr there ↦ ground (arith, any_of_IsLabel l bs (d, there, e))
]

-- The collected map has exactly the labels of the backends as keys.
pub contains_key-collect_labels_iff :
    (l : String) (bs : List Backend) → (contains_key l (collect_labels [] bs) ≡ true) ↔ IsLabel bs l
unfolding contains_key
contains_key-collect_labels_iff l bs =
    rw (contains_key-collect_labels l [] bs) (any_label l bs, any_of_IsLabel l bs)
