-- ===== src/Tests/AdminTests.antt =====
-- Runs of the key administration.
use sol_rpc_router.Base.{
  arith, inl, inr, ℕ, String, ◌≡◌, ◌≢◌, refl, Bool, true, false, ◌||◌, ◌&&◌, not, Option, none,
  some, List, [], ◌∷◌, ◌==◌, eq_iff, is_empty, Result, ok, err, if◌then◌else◌,
}
use sol_rpc_router.KeyStore.{Redis, fetch, api_key_of}
use sol_rpc_router.Admin.{
  updated, update, Write, set_text, set_number, Writer, created, revoked, create, revoke,
}
use sol_rpc_router.KeyStore.{validate_key, get_key_info, check_info, check_rate_limit, script}
use sol_rpc_router.KeyStore.Cached.{Expires}
use sol_rpc_router.Samples.{cache, cache-IsTtl}
use sol_rpc_router.Admin.Cli.{
  Reader, create_key, listed, with_owner, revoke_key, list_keys, list, list_each, main,
}
use sol_rpc_router.Admin.Frame.{IsLocal, main-frame}
use sol_rpc_router.KeyStore.Hashes.{IsLocalCounter}
use sol_rpc_router.KeyStore.Steps.{finished}
use sol_rpc_router.KeyStore.Concurrent.{World, Event, begins, advances, changes, happen, happen_all}
use sol_rpc_router.Admin.Races.{OtherCommand, revoked_call-refused}
use sol_rpc_router.Admin.Updates.{update-fetch}
use sol_rpc_router.Admin.Keys.{later_of, last_write, IsHash, ReadsWritten, create-fetch}

-- Hashes by key and field, with the keys that exist.
pub record Hashes : Type 0 where
  pub there : String → Bool
  pub value : String → String → Option Write

abbrev as_text : Option Write → Result String String
as_text (some (set_text f v)) = ok v
as_text (some (set_number f n)) = err "a number"
as_text none = err "nil"

abbrev as_number : Option Write → Result String ℕ
as_number (some (set_number f n)) = ok n
as_number (some (set_text f v)) = err "a text"
as_number none = err "nil"

abbrev pub hashes : Redis
hashes = record {
  Db = Hashes;
  exists = λ k db. ok (db.there k);
  hget = λ k f db. as_text (db.value k f);
  hget_u64 = λ k f db. as_number (db.value k f);
  incr = λ k db. (1, db);
  expire = λ k t db. db;
  invoke = λ f db. (ok (f db).0, (f db).1);
}

abbrev put : String → List Write → Hashes → Hashes
put k ws db = record {
  there = λ j. (j == k && not (is_empty ws)) || db.there j;
  value = λ j f. if j == k then later_of (last_write f ws) (db.value j f) else db.value j f;
}

abbrev pub writer : Writer hashes
writer = record { pipe = λ k ws db. (ok tt, put k ws db); sadd = λ s m db. (ok tt, db) }

same : (k : String) → (k == k) ≡ true
same k = (eq_iff k k).1 refl

pub hashes-IsHash : IsHash hashes writer
hashes-IsHash = record {
  text_written = λ k f v ws db _ e. rw (same k, e);
  number_written = λ k f n ws db _ e. rw (same k, e);
  text_kept = λ k f ws db _ e. rw (same k, e);
  number_kept = λ k f ws db _ e. rw (same k, e);
  written_exists = λ k ws db _ e. rw (same k, e);
  sadd_exists = λ _ _ _ _ _. refl;
  sadd_text = λ _ _ _ _ _ _. refl;
  sadd_number = λ _ _ _ _ _ _. refl;
}

pub hashes-ReadsWritten : ReadsWritten hashes writer
hashes-ReadsWritten = record {
  text_read =
      λ k f v u ws db sent last read. cc (read, hashes-IsHash.text_written k f v ws db sent last);
}

abbrev nothing : Hashes
nothing = record { there = λ _. false; value = λ _ _. none }

abbrev pub one : Hashes
one = put (api_key_of "k1") (set_text "owner" "acme" ∷ set_number "rate_limit" 5 ∷ []) nothing

pub admin_runs :
    ((create hashes writer "k1" "acme" 5 (some 99) 7 nothing).0 ≡ ok (created "k1"))
    × ((revoke hashes writer "k1" one).0 ≡ ok (revoked "k1"))
    × (fetch hashes "k1" one ≡ ok (some (record { owner = "acme"; rate_limit = 5 })))
    × (fetch hashes "k1" (revoke hashes writer "k1" one).1 ≡ ok none)
unfolding create revoke fetch
admin_runs = (refl, refl, refl, refl)

create-fetch_example :
    fetch hashes "k1" (create hashes writer "k1" "acme" 5 (some 99) 7 nothing).1
    ≡ ok (some (record { owner = "acme"; rate_limit = 5 }))
create-fetch_example =
    create-fetch hashes writer "k1" hashes-IsHash "acme" 5 (some 99) 7 nothing admin_runs.0

update_runs :
    ((update hashes writer "k1" (some 9) none (some true) one).0 ≡ ok (updated "k1"))
    × (fetch hashes "k1" one ≡ ok (some (record { owner = "acme"; rate_limit = 5 })))
unfolding update fetch
update_runs = (refl, refl)

update-fetch_example :
    fetch hashes "k1" (update hashes writer "k1" (some 9) none (some true) one).1
    ≡ ok (some (record { owner = "acme"; rate_limit = 9 }))
update-fetch_example =
    update-fetch hashes writer "k1" hashes-IsHash (some 9) none (some true) one
      (record { owner = "acme"; rate_limit = 5 }) update_runs.1 update_runs.0 (λ e. cc)

pub hashes-IsLocal : IsLocal hashes writer
hashes-IsLocal = record {
  pipe = λ j k ws db ne.
      let other : (j == k) ≡ false = ground (arith, eq_iff j k) in
      record { exists = rw other refl; texts = λ f. rw other refl; numbers = λ f. rw other refl };
  sadd = λ j s m db ne. record { exists = refl; texts = λ f. refl; numbers = λ f. refl };
}

abbrev pub reader : Reader hashes
reader = record {
  smembers = λ s db. ok ("k1" ∷ []);
  hget_option = λ k f db. elim (as_text (db.value k f)) [ ok v ↦ ok (some v) | err e ↦ ok none ];
}

list_runs :
    (main hashes reader writer "" 0 list_keys one).0
    ≡ ok (listed (with_owner "k1" "acme" "true" ∷ []))
unfolding main list list_each
list_runs = refl

main-frame_run :
    fetch hashes "k1" (main hashes reader writer "" 0 (revoke_key "k2") one).1
    ≡ fetch hashes "k1" one
main-frame_run =
    main-frame hashes writer reader "k1" "" 0 (revoke_key "k2") one hashes-IsLocal
      (λ e. cc ((eq_iff "k1" "k2").1 e))

pub hashes-IsLocalCounter : IsLocalCounter hashes
hashes-IsLocalCounter = record {
  incr = λ j k db ne. record { exists = refl; texts = λ f. refl; numbers = λ f. refl };
  expire = λ j k n db ne. record { exists = refl; texts = λ f. refl; numbers = λ f. refl };
  invoke = λ j f db same. same;
}

-- The key was accepted at 10 and is revoked at 40; a call at 50 is let in.
abbrev pub warm : cache.Store
warm = ("k1", (some (record { owner = "acme"; rate_limit = 5 }), 10)) ∷ []

history_runs :
    (validate_key hashes cache "k1"
      (record { cache = warm; db = (revoke hashes writer "k1" one).1; now = 50 })).0
    ≡ ok (some (record { owner = "acme"; rate_limit = 5 }))
unfolding validate_key get_key_info check_info check_rate_limit script
history_runs = refl

pub warm-Expires : Expires hashes cache "k1" 40 warm
warm-Expires now info hit = elim (cache-IsTtl.lookup-store "k1" "k1" _ (some info) 10 now [] hit) [
  | inl (_, _, soon) ↦ omega arith
  | inr never ↦ cc
]

-- With the calls in steps: a call is under way from 50 on, another command creates a key,
-- and the call 7 begins and takes its steps at 100.
abbrev create_other : Hashes → Hashes
create_other db = (main hashes reader writer "" 60 (create_key "other" 7 none (some "k2")) db).1

abbrev world : World hashes cache
world = record { cache = warm; db = (revoke hashes writer "k1" one).1; tasks = λ _. none }

abbrev under_way : List (Event hashes)
under_way = begins 1 "k1" ∷ advances 1 50 ∷ changes create_other ∷ advances 1 95 ∷ []

abbrev afterwards : List (Event hashes)
afterwards = advances 7 100 ∷ advances 1 100 ∷ advances 7 101 ∷ advances 7 102 ∷ []

creates_other : OtherCommand hashes writer reader "k1" create_other
creates_other = record {
  generated = "";
  now = 60;
  cmd = create_key "other" 7 none (some "k2");
  spares = λ e. cc ((eq_iff "k1" "k2").1 e);
  runs = λ db. refl;
}

revoked_call-refused_example :
    (happen_all hashes cache afterwards
        (happen hashes cache (begins 7 "k1") (happen_all hashes cache under_way world))).tasks
      7
    ≢ some (record {
      key = "k1";
      phase = finished (ok (some (record { owner = "acme"; rate_limit = 5 })));
    })
unfolding revoke
revoked_call-refused_example =
    revoked_call-refused hashes writer reader "k1" cache 40 7 one world under_way afterwards
      (record { owner = "acme"; rate_limit = 5 }) cache-IsTtl hashes-ReadsWritten hashes-IsLocal
      hashes-IsLocalCounter admin_runs.1 tt refl (λ id t none_there _. cc) warm-Expires
      (tt, (tt, (creates_other, (tt, tt)))) (tt, (tt, (tt, (tt, tt))))
      ((λ _. omega arith), ((λ _. omega arith), ((λ _. omega arith), ((λ _. omega arith), tt))))
