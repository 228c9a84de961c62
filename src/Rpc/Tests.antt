-- ===== src/Rpc/Tests.antt =====
-- Runs of the request registry, and its theorems at concrete registries.
use Prim.Native.String.{String}
use ddsproxy.Common.{
  ℕ, true, zero, suc, ◌+◌, ◌<◌, ◌≡◌, ◌≢◌, refl, none, some, List, [], ◌∷◌, arith, nat_key, length,
}
use ddsproxy.Common.Map.{Map, find}
use ddsproxy.Rpc.ServiceRegistry.{ServiceRegistry, init, add, erase_entry, get}
use ddsproxy.Common.Ordered.{Above}
use ddsproxy.Rpc.ServiceRegistry.Capacity.{
  Call, adds, erases, run, IsValid, run-init-IsValid, get-add-erase_entry, find-add_full,
}

abbrev two_requests : ServiceRegistry ℕ
two_requests = record {
  participant_id = "wan";
  enabled = true;
  registry = (1, ("lan", 10)) ∷ (4, ("lan", 40)) ∷ [];
}

get_stored : get 0 4 two_requests ≡ ("lan", 40)
unfolding get find
get_stored = refl

abbrev calls : List (Call ℕ)
calls = adds 3 ("lan", 30) ∷ erases 3 ∷ []

run-init-IsValid_example : IsValid (run (init "wan") calls)
run-init-IsValid_example = run-init-IsValid "wan" calls

get-add-erase_entry_example :
    (get 0 2 (add 2 ("lan", 20) two_requests) ≡ ("lan", 20))
    × (get 0 2 (erase_entry 2 (add 2 ("lan", 20) two_requests)) ≡ ("", 0))
    × ((i : ℕ) → i ≢ 2 → get 0 i (add 2 ("lan", 20) two_requests) ≡ get 0 i two_requests)
    × ((i : ℕ)
        → i ≢ 2
        → get 0 i (erase_entry 2 (add 2 ("lan", 20) two_requests)) ≡ get 0 i two_requests)
unfolding find
get-add-erase_entry_example = get-add-erase_entry 0 2 ("lan", 20) two_requests refl (omega arith)

-- `n` requests with the sequence numbers from `first` on.
requests : ℕ → ℕ → Map ℕ (String × ℕ)
requests first zero = []
requests first (suc n) = (first, ("lan", first)) ∷ requests (suc first) n

length-requests : (first n : ℕ) → length (requests first n) ≡ n
unfolding requests
length-requests first zero = refl
length-requests first (suc n) = omega (arith, length-requests (suc first) n)

requests-Above : (k first n : ℕ) → k < first → Above k (requests first n)
unfolding requests
requests-Above k first zero h = tt
requests-Above k first (suc n) h = (h, requests-Above first (suc first) n (omega arith))

find-requests : (k first n : ℕ) → first + n < suc k → find k (requests first n) ≡ none
unfolding requests find
find-requests k first zero h = refl
find-requests k first (suc n) h = ground (arith, find-requests k (suc first) n)

abbrev full_registry : ServiceRegistry ℕ
full_registry = record {
  participant_id = "wan";
  enabled = true;
  registry = (1, ("lan", 1)) ∷ requests 2 4998;
}

full_registry-IsValid : IsValid full_registry
full_registry-IsValid = record {
  ordered = requests-Above 1 2 4998 (omega arith);
  bounded = omega (arith, length-requests 2 4998);
}

full_registry-new : find 9000 full_registry.registry ≡ none
unfolding find
full_registry-new = find-requests 9000 2 4998 (omega arith)

find-add_full_example :
    (find 1 (add 9000 ("wan", 7) full_registry).registry ≡ none)
    × (find 9000 (add 9000 ("wan", 7) full_registry).registry ≡ some ("wan", 7))
    × ((i : ℕ)
        → i ≢ 9000
        → i ≢ 1
        → find i (add 9000 ("wan", 7) full_registry).registry ≡ find i full_registry.registry)
find-add_full_example =
    find-add_full 9000 1 ("wan", 7) full_registry full_registry-IsValid full_registry-new
      (omega (arith, length-requests 2 4998)) refl (omega arith)
