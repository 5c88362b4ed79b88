-- ===== src/Tests/Runtime.antt =====
-- Runs of core/runtime/dependency.go on three capabilities, and on a cycle of two.
use sdkit.Base.{ℕ, zero, suc, ◌-◌, ◌≡◌, ◌↔◌, refl, List, [], ◌∷◌, Bool, String, arith, has_name}
use sdkit.Base.Result.{ok}
use sdkit.Base.Count.{count}
use sdkit.Base.Dict.{empty, get, put}
use sdkit.Runtime.Sort.{
  Dependency, sorted, failed, SortError, cycle, index_by_name, resolve, link, build, graph_of,
  roots, relax, drain, drain_items, values, sort_dependency_items,
}
use sdkit.Runtime.Sort.Order.{IsPlan, sort_dependency_items-IsPlan}
use sdkit.Runtime.Sort.Complete.{
  IsStuck, IsRank, sort_dependency_items-IsStuck, sort_dependency_items-sorted,
}
use sdkit.Runtime.Dependency.{
  Component, require, optional, make_name_set, items_of, filter_dependencies, validate_from,
  validate_dependency_list, validate_all, validate_capability_dependencies,
  validate_provider_dependencies, sort_capabilities_no_validate, sort_providers_no_validate,
  sort_capabilities, sort_providers,
}
use sdkit.Runtime.Dependency.Validate.{Distinct, Present, validate_dependency_list_iff}
use sdkit.Runtime.Dependency.Plan.{IsRunOrder, sort_capabilities-IsRunOrder}

abbrev component : String → List Dependency → Component
component name deps = record { name = name; dependencies = deps }

abbrev cache : Component
cache = component "cache" (require "redis" ∷ optional "log" ∷ [])

abbrev redis : Component
redis = component "redis" (require "log" ∷ optional "metrics" ∷ [])

abbrev log : Component
log = component "log" []

abbrev capabilities : List Component
capabilities = cache ∷ redis ∷ log ∷ []

abbrev in_order : List Component
in_order = log ∷ redis ∷ cache ∷ []

-- Opens what a run of the sort computes with.
sorting : Unit {0}
unfolding sort_dependency_items drain_items graph_of index_by_name resolve link build roots relax
    drain values empty get put
sorting = tt

-- Opens the validation and the sort.
running : Unit {0}
unfolding sorting validate_from validate_dependency_list validate_all has_name filter_dependencies
    validate_capability_dependencies validate_provider_dependencies sort_capabilities_no_validate
    sort_providers_no_validate sort_capabilities sort_providers
running = tt

sort_three : sort_dependency_items (items_of capabilities) ≡ sorted in_order
unfolding sorting
sort_three = refl

sort_dependency_items-IsPlan_example :
    (out : List ℕ) × (in_order ≡ values (items_of capabilities) out)
    × IsPlan (items_of capabilities) out
sort_dependency_items-IsPlan_example =
    sort_dependency_items-IsPlan (items_of capabilities) in_order sort_three

abbrev ring : List Component
ring = component "a" (require "b" ∷ []) ∷ component "b" (require "a" ∷ []) ∷ log ∷ []

sort_ring : sort_dependency_items (items_of ring) ≡ failed cycle
unfolding sorting
sort_ring = refl

sort_dependency_items-IsStuck_example :
    (◌≡◌ {A = SortError} cycle cycle) × ((waiting : ℕ → Bool) × IsStuck (items_of ring) waiting)
sort_dependency_items-IsStuck_example =
    sort_dependency_items-IsStuck (items_of ring) cycle sort_ring

falls : IsRank (items_of capabilities) (λ i. 2 - i)
unfolding sorting count
falls zero d h = ground arith
falls (suc zero) d h = ground arith
falls (suc (suc i)) d h = ground arith

sort_dependency_items-sorted_example :
    (vs : List Component) × (sort_dependency_items (items_of capabilities) ≡ sorted vs)
sort_dependency_items-sorted_example =
    sort_dependency_items-sorted (items_of capabilities) (λ i. 2 - i) falls

validate_dependency_list_iff_example :
    (validate_dependency_list "cache" cache.dependencies ("redis" ∷ []) ≡ ok tt)
    ↔ (Distinct cache.dependencies × Present ("redis" ∷ []) cache.dependencies)
validate_dependency_list_iff_example =
    validate_dependency_list_iff "cache" ("redis" ∷ []) cache.dependencies

capabilities_run : sort_capabilities capabilities ≡ ok in_order
unfolding running
capabilities_run = refl

sort_capabilities-IsRunOrder_example :
    IsRunOrder (make_name_set capabilities) capabilities (items_of capabilities) in_order
sort_capabilities-IsRunOrder_example =
    sort_capabilities-IsRunOrder capabilities in_order capabilities_run

abbrev web : Component
web = component "web" (require "cache" ∷ require "jobs" ∷ [])

abbrev jobs : Component
jobs = component "jobs" (optional "mail" ∷ [])

providers_run : sort_providers (web ∷ jobs ∷ []) capabilities ≡ ok (jobs ∷ web ∷ [])
unfolding running
providers_run = refl
