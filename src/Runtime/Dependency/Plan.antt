-- ===== src/Runtime/Dependency/Plan.antt =====
-- SortCapabilities and SortProviders: what a result without an error is worth.
use sdkit.Base.{◌≡◌, String, List, ◌++◌, map, arith, ℕ, All}
use sdkit.Base.Result.{ok}
use sdkit.Runtime.Sort.{
  DependencyItem, Sorted, sorted, failed, cycle, out_of_fuel, values, sort_dependency_items,
}
use sdkit.Runtime.Sort.Order.{IsPlan, sort_dependency_items-IsPlan}
use sdkit.Runtime.Dependency.{
  Component, make_name_set, of_sorted, items_of, provider_item, sort_capabilities, sort_providers,
  validate_all, validate_capability_dependencies, validate_provider_dependencies,
}
use sdkit.Runtime.Dependency.Validate.{IsValid, validate_all_sound}

of_sorted-eq-ok : (r : Sorted Component) {vs : List Component} → of_sorted r ≡ ok vs → r ≡ sorted vs
of_sorted-eq-ok (sorted ws) h = ground arith
of_sorted-eq-ok (failed cycle) h = cc
of_sorted-eq-ok (failed out_of_fuel) h = cc

-- A validated order: every list is well formed for `targets`, and `vs` are the values of a plan.
pub record IsRunOrder (targets : List String) (cs : List Component)
    (items : List (DependencyItem Component)) (vs : List Component) : Type 0 where
  pub valid : All (IsValid targets) cs
  pub out : List ℕ
  pub listed : vs ≡ values items out
  pub plan : IsPlan items out

run_order :
    (targets : List String) (cs : List Component) (items : List (DependencyItem Component))
    (vs : List Component)
    → validate_all cs targets ≡ ok tt
    → of_sorted (sort_dependency_items items) ≡ ok vs
    → IsRunOrder targets cs items vs
run_order targets cs items vs v h =
    let (out, listed, plan) =
      sort_dependency_items-IsPlan items vs (of_sorted-eq-ok (sort_dependency_items items) h) in
    record { valid = validate_all_sound cs targets v; out = out; listed = listed; plan = plan }

-- SortCapabilities succeeds only if every list is well formed and every required dependency is a
-- capability, and then it lists all capabilities, each behind those that it depends on.
pub sort_capabilities-IsRunOrder :
    (capabilities vs : List Component)
    → sort_capabilities capabilities ≡ ok vs
    → IsRunOrder (make_name_set capabilities) capabilities (items_of capabilities) vs
unfolding sort_capabilities validate_capability_dependencies
sort_capabilities-IsRunOrder capabilities vs h =
    run_order (make_name_set capabilities) capabilities (items_of capabilities) vs (ground arith)
      (ground arith)

-- SortProviders succeeds only if every list is well formed and every required dependency is a
-- provider or a capability, and then it lists all providers, each behind the providers that it
-- depends on.
pub sort_providers-IsRunOrder :
    (providers capabilities vs : List Component)
    → sort_providers providers capabilities ≡ ok vs
    → IsRunOrder
        (make_name_set providers ++ make_name_set capabilities)
        providers
        (map (provider_item (make_name_set providers)) providers)
        vs
unfolding sort_providers validate_provider_dependencies
sort_providers-IsRunOrder providers capabilities vs h =
    run_order (make_name_set providers ++ make_name_set capabilities) providers
      (map (provider_item (make_name_set providers)) providers) vs (ground arith) (ground arith)
