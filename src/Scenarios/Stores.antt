-- ===== src/Scenarios/Stores.antt =====
-- Runs of the stored collections and of the leases (backend-api/patchforge/storage.js).
use diiac_patchforge.Prelude.{
  ◌≡◌, refl, true, false, none, some, List, [], ◌∷◌, arith, is_some, some_inj,
}
use diiac_patchforge.Store.{lookup, append_immutable, replace}
use diiac_patchforge.Store.Immutable.{lookup-append_immutable}
use diiac_patchforge.Leases.{Lease, lease_keyed, acquire, release, pg_acquire, blocks, released}
use diiac_patchforge.Leases.Steps.{Call, acquires, releases, run, Holds, run-Holds}
use diiac_patchforge.Leases.Backends.{acquire-eq-pg_acquire}
use diiac_patchforge.Automation.{work_keyed}
use diiac_patchforge.Scenarios.{kev_item, deploy_item, kev_lease, differ}

deploy_fresh : lookup "acme" "w2" (kev_item ∷ []) ≡ none
unfolding lookup
deploy_fresh = refl

appended :
    append_immutable deploy_item (kev_item ∷ [])
    ≡ some (record { stored = deploy_item; created = true }, kev_item ∷ deploy_item ∷ [])
unfolding append_immutable
appended = refl

kev_found : lookup "acme" "w1" (kev_item ∷ []) ≡ some kev_item
unfolding lookup
kev_found = refl

lookup-append_immutable_example : lookup "acme" "w1" (kev_item ∷ deploy_item ∷ []) ≡ some kev_item
lookup-append_immutable_example =
    lookup-append_immutable "acme" "w1" deploy_item kev_item
      (record { stored = deploy_item; created = true }) (kev_item ∷ [])
      (kev_item ∷ deploy_item ∷ []) appended kev_found

kev_lease-Holds : Holds kev_lease 5000 (kev_lease ∷ [])
unfolding lookup
kev_lease-Holds = record { stored = refl; expires = refl; live = refl; named = λ e. cc }

abbrev rival_calls : List Call
rival_calls =
    record {
      action = acquires;
      tenant = "acme";
      name = "automation-work:w1";
      owner = "worker-b";
      ttl = 60000;
      now = 4000;
    }
    ∷ record {
      action = releases;
      tenant = "acme";
      name = "automation-work:w1";
      owner = "worker-c";
      ttl = 0;
      now = 4500;
    }
    ∷ []

run-Holds_example : Holds kev_lease 5000 (run rival_calls (kev_lease ∷ []))
run-Holds_example = run-Holds kev_lease 5000 rival_calls (kev_lease ∷ []) kev_lease-Holds (
  (omega arith, differ "worker-b" "worker-a" refl),
  ((omega arith, differ "worker-c" "worker-a" refl), tt),
)

free_at_5000 : blocks "worker-b" 5000 (lookup "acme" "automation-work:w1" (kev_lease ∷ [])) ≡ false
unfolding blocks lookup
free_at_5000 = refl

abbrev given_back : Lease
given_back = record kev_lease { status = released; released_at = some 2500 }

given_back_stored :
    lookup "acme" "automation-work:w1"
      (release "acme" "automation-work:w1" "worker-a" 2500 (kev_lease ∷ [])).0
    ≡ some given_back
unfolding lookup release replace
given_back_stored = refl

kev_lease_dated :
    (l : Lease)
    → lookup "acme" "automation-work:w1" (kev_lease ∷ []) ≡ some l
    → is_some l.expires_at ≡ true
unfolding lookup
kev_lease_dated l h = let same : kev_lease ≡ l = some_inj h in rw (← same) refl

acquire-eq-pg_acquire_example :
    acquire "acme" "automation-work:w1" "worker-b" 60000 4000 (kev_lease ∷ [])
    ≡ pg_acquire "acme" "automation-work:w1" "worker-b" 60000 4000 (kev_lease ∷ [])
acquire-eq-pg_acquire_example =
    acquire-eq-pg_acquire "acme" "automation-work:w1" "worker-b" 60000 4000 (kev_lease ∷ [])
      (λ e. cc) kev_lease_dated
