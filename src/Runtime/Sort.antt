-- ===== src/Runtime/Sort.antt =====
-- core/runtime/dependency.go: Dependency, dependencyItem and sortDependencyItems.
-- `inDegree` and `edges` are functions of the index. The loop keeps the indices of the items that it
-- has put out; the values are looked up at the end. An entry of `inDegree` is a natural number that
-- stops at 0, and an item is queued when its entry falls from 1, which is when Go's falls to 0.
pub mod Edges
pub mod Relax
pub mod Loop
pub mod Order
pub mod Complete
use sdkit.Base.{
  ℕ, zero, suc, ◌+◌, ◌-◌, String, Bool, Option, none, some, List, [], ◌∷◌, ◌++◌, ◌==◌,
  if◌then◌else◌, length, get_elem?,
}
use sdkit.Base.Dict
use sdkit.Base.Dict.{Dict}

pub record Dependency : Type 0 where
  pub name : String
  pub required : Bool

pub record DependencyItem {ℓ} (T : Type ℓ) : Type ℓ where
  pub name : String
  pub value : T
  pub dependencies : List Dependency

abbrev pub update {ℓ} : {A : Type ℓ} → (ℕ → A) → ℕ → A → ℕ → A
update f i v j = if i == j then v else f j

module _ {ℓ} {T : Type ℓ} where
  -- for i, item := range items { indexByName[item.name] = i }, from the index `i` on
  unfoldable pub index_by_name : ℕ → Dict ℕ → List (DependencyItem T) → Dict ℕ
  index_by_name i m [] = m
  index_by_name i m (item ∷ items) = index_by_name (suc i) (Dict.put m item.name i) items

-- The indices behind the names of one item's dependencies; a name that no item has is skipped.
unfoldable pub resolve : Dict ℕ → List Dependency → List ℕ
resolve m [] = []
resolve m (dep ∷ deps) =
    let rest = resolve m deps in elim (Dict.get m dep.name) [ none ↦ rest | some d ↦ d ∷ rest ]

pub record Graph : Type 0 where
  pub in_degree : ℕ → ℕ
  pub edges : ℕ → List ℕ

abbrev pub no_edges : Graph
no_edges = record { in_degree = λ _. 0; edges = λ _. [] }

-- The inner loop: an edge from each dependency of item `i` to `i`.
unfoldable pub link : ℕ → List ℕ → Graph → Graph
link i [] g = g
link i (d ∷ ds) g = link i ds (record {
  in_degree = update g.in_degree i (g.in_degree i + 1);
  edges = update g.edges d (g.edges d ++ i ∷ []);
})

module _ {ℓ} {T : Type ℓ} where
  -- The outer loop, from the index `i` on.
  unfoldable pub build : Dict ℕ → ℕ → List (DependencyItem T) → Graph → Graph
  build m i [] g = g
  build m i (item ∷ items) g = build m (suc i) items (link i (resolve m item.dependencies) g)

-- for i := range items { if inDegree[i] == 0 { queue = append(queue, i) } }, from `i` on for `k` items
unfoldable pub roots : (ℕ → ℕ) → ℕ → ℕ → List ℕ
roots degree i zero = []
roots degree i (suc k) =
    let rest = roots degree (suc i) k in if degree i == 0 then i ∷ rest else rest

-- The loop over `edges[current]`: each successor's entry is decremented, and it is queued at 0.
unfoldable pub relax : List ℕ → (ℕ → ℕ) → List ℕ → (ℕ → ℕ) × List ℕ
relax [] degree queue = (degree, queue)
relax (next ∷ nexts) degree queue =
    relax nexts (update degree next (degree next - 1))
      (if degree next == 1 then queue ++ next ∷ [] else queue)

-- for len(queue) > 0; `none` means that the fuel ran out.
unfoldable pub drain : ℕ → (ℕ → List ℕ) → (ℕ → ℕ) → List ℕ → List ℕ → Option (List ℕ)
drain fuel edges degree [] out = some out
drain zero edges degree (current ∷ queue) out = none
drain (suc fuel) edges degree (current ∷ queue) out =
    let (degree', queue') = relax (edges current) degree queue in
    drain fuel edges degree' queue' (out ++ current ∷ [])

pub data SortError : Type 0 where
  cycle out_of_fuel : SortError

pub data Sorted {ℓ} (T : Type ℓ) : Type ℓ where
  sorted : List T → Sorted T
  failed : SortError → Sorted T

module _ {ℓ} {T : Type ℓ} where
  unfoldable pub graph_of : List (DependencyItem T) → Graph
  graph_of items = build (index_by_name 0 Dict.empty items) 0 items no_edges

  -- The indices of the items in the order in which the loop puts them out.
  unfoldable pub drain_items : List (DependencyItem T) → Option (List ℕ)
  drain_items items =
      let g = graph_of items in
      drain (length items) g.edges g.in_degree (roots g.in_degree 0 (length items)) []

  abbrev pub value_at : List (DependencyItem T) → ℕ → List T
  value_at items i = elim (get_elem? items i) [ none ↦ [] | some item ↦ item.value ∷ [] ]

  -- items[i].value for each i
  unfoldable pub values : List (DependencyItem T) → List ℕ → List T
  values items [] = []
  values items (i ∷ is) = value_at items i ++ values items is

  -- if len(out) != len(items) { return nil, ErrDependencyCycle }
  abbrev pub finish : List (DependencyItem T) → Option (List ℕ) → Sorted T
  finish items none = failed out_of_fuel
  finish items (some out) =
      if length out == length items then sorted (values items out) else failed cycle

  unfoldable pub sort_dependency_items : List (DependencyItem T) → Sorted T
  sort_dependency_items items = finish items (drain_items items)
