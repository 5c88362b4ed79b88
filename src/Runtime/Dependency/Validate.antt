-- ===== src/Runtime/Dependency/Validate.antt =====
-- validateDependencyList accepts exactly the lists that are well formed.
use sdkit.Base.{
  ◌≡◌, ◌≢◌, ◌↔◌, refl, String, true, false, List, [], ◌∷◌, arith, has_name, has_name-nil,
  has_name-cons, All, eq_iff,
}
use sdkit.Base.Result.{ok}
use sdkit.Runtime.Sort.{Dependency}
use sdkit.Runtime.Dependency.{Component, validate_from, validate_dependency_list, validate_all}

-- No dependency has the name `k`.
abbrev pub Fresh : String → List Dependency → Type 0
Fresh k [] = Unit
Fresh k (dep ∷ deps) = (dep.name ≢ k) × Fresh k deps

-- The names are not empty and differ from one another.
abbrev pub Distinct : List Dependency → Type 0
Distinct [] = Unit
Distinct (dep ∷ deps) = (dep.name ≢ "") × Fresh dep.name deps × Distinct deps

-- The required dependencies are there.
abbrev pub Present : List String → List Dependency → Type 0
Present targets [] = Unit
Present targets (dep ∷ deps) =
    (dep.required ≡ true → has_name dep.name targets ≡ true) × Present targets deps

-- No dependency has one of the names `seen`.
abbrev Unseen : List String → List Dependency → Type 0
Unseen seen [] = Unit
Unseen seen (dep ∷ deps) = (has_name dep.name seen ≡ false) × Unseen seen deps

Unseen-nil : (deps : List Dependency) → Unseen [] deps
Unseen-nil [] = tt
Unseen-nil (dep ∷ deps) = (has_name-nil dep.name, Unseen-nil deps)

Unseen-cons :
    (k : String) (seen : List String) (deps : List Dependency)
    → Unseen (k ∷ seen) deps
    → Fresh k deps × Unseen seen deps
Unseen-cons k seen [] h = (tt, tt)
Unseen-cons k seen (dep ∷ deps) h =
    let (f, u) = Unseen-cons k seen deps h.1 in
    (
      (λ e. ground (arith, has_name-cons dep.name k seen, eq_iff k dep.name, h.0), f),
      (ground (arith, has_name-cons dep.name k seen, h.0), u),
    )

cons-Unseen :
    (k : String) (seen : List String) (deps : List Dependency)
    → Fresh k deps
    → Unseen seen deps
    → Unseen (k ∷ seen) deps
cons-Unseen k seen [] f u = tt
cons-Unseen k seen (dep ∷ deps) f u = (
  ground (arith, has_name-cons dep.name k seen, eq_iff k dep.name, f.0, u.0),
  cons-Unseen k seen deps f.1 u.1,
)

module _ (source : String) (targets : List String) where
  validate_from_sound :
      (seen : List String) (deps : List Dependency)
      → validate_from source targets seen deps ≡ ok tt
      → Distinct deps × Present targets deps × Unseen seen deps
  unfolding validate_from
  validate_from_sound seen [] h = (tt, tt, tt)
  validate_from_sound seen (dep ∷ deps) h =
      let rest : validate_from source targets (dep.name ∷ seen) deps ≡ ok tt = ground arith in
      let (d, p, u) = validate_from_sound (dep.name ∷ seen) deps rest in
      let (f, u') = Unseen-cons dep.name seen deps u in
      ((λ e. ground (arith, eq_iff dep.name ""), f, d), (λ r. ground arith, p), (ground arith, u'))

  validate_from_complete :
      (seen : List String) (deps : List Dependency)
      → Distinct deps
      → Present targets deps
      → Unseen seen deps
      → validate_from source targets seen deps ≡ ok tt
  unfolding validate_from
  validate_from_complete seen [] d p u = refl
  validate_from_complete seen (dep ∷ deps) d p u = ground (
    arith,
    eq_iff dep.name "",
    p.0,
    validate_from_complete (dep.name ∷ seen) deps d.2 p.1 (cons-Unseen dep.name seen deps d.1 u.1),
  )

  -- A list is accepted exactly when its names are not empty and differ, and each required name is
  -- one of the targets.
  pub validate_dependency_list_iff :
      (deps : List Dependency)
      → (validate_dependency_list source deps targets ≡ ok tt)
        ↔ (Distinct deps × Present targets deps)
  unfolding validate_dependency_list
  validate_dependency_list_iff deps = (
    λ h. let (d, p, u) = validate_from_sound [] deps h in (d, p),
    λ h. validate_from_complete [] deps h.0 h.1 (Unseen-nil deps),
  )

-- What a component's dependency list must be, for the names that are there.
abbrev pub IsValid : List String → Component → Type 0
IsValid targets c = Distinct c.dependencies × Present targets c.dependencies

pub validate_all_sound :
    (cs : List Component) (targets : List String)
    → validate_all cs targets ≡ ok tt
    → All (IsValid targets) cs
unfolding validate_all
validate_all_sound [] targets h = tt
validate_all_sound (c ∷ cs) targets h =
    let first : validate_dependency_list c.name c.dependencies targets ≡ ok tt = ground arith in
    (
      (validate_dependency_list_iff c.name targets c.dependencies).0 first,
      validate_all_sound cs targets (ground arith),
    )
