-- ===== src/Runtime/Dependency.antt =====
-- core/runtime/dependency.go: validation of dependency lists, and the sorted lists of capabilities and
-- providers. A capability and a provider are read through `capabilityName`/`providerName` and
-- `capabilityDependencies`/`providerDependencies`: a `Component` has these two values. A set of names
-- (`map[string]struct{}`) is a list. The text behind `%w` of an error is kept as its two names.
pub mod Validate
pub mod Plan
use sdkit.Base.{
  String, Bool, true, false, not, ◌&&◌, Option, none, some, List, [], ◌∷◌, ◌++◌, map, has_name,
  is_blank, if◌then◌else◌,
}
use sdkit.Base.Result.{Result, ok, err, ◌>>=◌, ◌>>◌}
use sdkit.Runtime.Sort.{
  Dependency, DependencyItem, Sorted, sorted, failed, SortError, cycle, out_of_fuel,
  sort_dependency_items,
}

pub data DependencyError : Type 0 where
  name_required : String → DependencyError
  duplicate missing : String → String → DependencyError
  dependency_cycle no_end : DependencyError

pub record Component : Type 0 where
  pub name : String
  pub dependencies : List Dependency

-- Require and Optional
abbrev pub require : String → Dependency
require name = record { name = name; required = true }

abbrev pub optional : String → Dependency
optional name = record { name = name; required = false }

-- dependenciesFromNames
abbrev pub dependencies_from_names : Bool → List String → List Dependency
dependencies_from_names required names = map (λ n. record { name = n; required = required }) names

-- makeNameSet
abbrev pub make_name_set : List Component → List String
make_name_set items = map (λ c. c.name) items

-- filterDependencies(dependencies, func(dep) { _, ok := names[dep.Name]; return ok })
unfoldable pub filter_dependencies : (Dependency → Bool) → List Dependency → List Dependency
filter_dependencies keep [] = []
filter_dependencies keep (dep ∷ deps) =
    let rest = filter_dependencies keep deps in if keep dep then dep ∷ rest else rest

-- The loop of validateDependencyList; `seen` are the names before.
unfoldable pub validate_from :
    String → List String → List String → List Dependency → Result DependencyError (Unit {0})
validate_from source targets seen [] = ok tt
validate_from source targets seen (dep ∷ deps) =
    let rest = validate_from source targets (dep.name ∷ seen) deps in
    if is_blank dep.name
    then err (name_required source)
    else if has_name dep.name seen
    then err (duplicate source dep.name)
    else if not dep.required
    then rest
    else if not (has_name dep.name targets)
    then err (missing source dep.name)
    else rest

unfoldable pub validate_dependency_list :
    String → List Dependency → List String → Result DependencyError (Unit {0})
unfolding validate_from
validate_dependency_list source deps targets = validate_from source targets [] deps

-- for _, c := range components { validateDependencyList(name, dependencies, names) }
unfoldable pub validate_all : List Component → List String → Result DependencyError (Unit {0})
validate_all [] targets = ok tt
validate_all (c ∷ cs) targets =
    validate_dependency_list c.name c.dependencies targets >> validate_all cs targets

abbrev pub of_sorted : Sorted Component → Result DependencyError (List Component)
of_sorted (sorted vs) = ok vs
of_sorted (failed cycle) = err dependency_cycle
of_sorted (failed out_of_fuel) = err no_end

abbrev pub item_of : Component → DependencyItem Component
item_of c = record { name = c.name; value = c; dependencies = c.dependencies }

abbrev pub items_of : List Component → List (DependencyItem Component)
items_of cs = map item_of cs

-- sortCapabilitiesNoValidate
unfoldable pub sort_capabilities_no_validate :
    List Component → Result DependencyError (List Component)
sort_capabilities_no_validate capabilities =
    of_sorted (sort_dependency_items (items_of capabilities))

-- The item of a provider keeps only the dependencies on other providers.
abbrev pub provider_item : List String → Component → DependencyItem Component
provider_item names c = record {
  name = c.name;
  value = c;
  dependencies = filter_dependencies (λ dep. has_name dep.name names) c.dependencies;
}

-- sortProvidersNoValidate
unfoldable pub sort_providers_no_validate :
    List Component → List String → Result DependencyError (List Component)
sort_providers_no_validate providers names =
    of_sorted (sort_dependency_items (map (provider_item names) providers))

unfoldable pub validate_capability_dependencies : List Component → Result DependencyError (Unit {0})
validate_capability_dependencies capabilities = do
  validate_all capabilities (make_name_set capabilities)
  vs ← sort_capabilities_no_validate capabilities
  ok tt

unfoldable pub validate_provider_dependencies :
    List Component → List Component → Result DependencyError (Unit {0})
validate_provider_dependencies providers capabilities = do
  validate_all providers (make_name_set providers ++ make_name_set capabilities)
  vs ← sort_providers_no_validate providers (make_name_set providers)
  ok tt

-- ValidateDependencies
unfoldable pub validate_dependencies :
    List Component → List Component → Result DependencyError (Unit {0})
validate_dependencies capabilities providers =
    validate_capability_dependencies capabilities
    >> validate_provider_dependencies providers capabilities

-- SortCapabilities
unfoldable pub sort_capabilities : List Component → Result DependencyError (List Component)
sort_capabilities capabilities = do
  validate_capability_dependencies capabilities
  of_sorted (sort_dependency_items (items_of capabilities))

-- SortProviders
unfoldable pub sort_providers :
    List Component → List Component → Result DependencyError (List Component)
sort_providers providers capabilities = do
  validate_provider_dependencies providers capabilities
  of_sorted (sort_dependency_items (map (provider_item (make_name_set providers)) providers))
