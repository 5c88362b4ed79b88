-- ===== src/Runtime/Sort/Edges.antt =====
-- The graph that the two nested loops build, against the dependencies read off the items.
use sdkit.Base.{
  ℕ, suc, ◌+◌, ◌≤◌, ◌<◌, ◌≡◌, refl, ap, List, [], ◌∷◌, ◌++◌, arith, ◌==◌, if◌then◌else◌, length,
}
use sdkit.Base.Count.{count, count-nil, count-cons, count-append}
use sdkit.Base.Dict
use sdkit.Base.Dict.{Dict, dict_laws, get-put, get-empty}
use sdkit.Runtime.Sort.{
  DependencyItem, Graph, no_edges, update, index_by_name, resolve, link, build, graph_of,
}

-- The dependencies of the item with index `j`, for items that begin at the index `i`.
module _ {ℓ} {T : Type ℓ} where
  abbrev pub deps_from : Dict ℕ → ℕ → List (DependencyItem T) → ℕ → List ℕ
  deps_from m i [] j = []
  deps_from m i (item ∷ items) j =
      if i == j then resolve m item.dependencies else deps_from m (suc i) items j

  deps_from_before :
      (m : Dict ℕ) (i : ℕ) (items : List (DependencyItem T)) (j : ℕ)
      → j < i
      → deps_from m i items j ≡ []
  deps_from_before m i [] j h = refl
  deps_from_before m i (item ∷ items) j h =
      ground (arith, deps_from_before m (suc i) items j (omega arith))

  pub deps_from_after :
      (m : Dict ℕ) (i : ℕ) (items : List (DependencyItem T)) (j : ℕ)
      → i + length items ≤ j
      → deps_from m i items j ≡ []
  deps_from_after m i [] j h = refl
  deps_from_after m i (item ∷ items) j h =
      ground (arith, deps_from_after m (suc i) items j (omega arith))

  -- The dependencies of item `j`, as indices.
  abbrev pub deps_of : List (DependencyItem T) → ℕ → List ℕ
  deps_of items = deps_from (index_by_name 0 Dict.empty items) 0 items

link-in_degree :
    (i : ℕ) (ds : List ℕ) (g : Graph) (j : ℕ)
    → (link i ds g).in_degree j ≡ g.in_degree j + (if i == j then length ds else 0)
unfolding link
link-in_degree i [] g j = ground arith
link-in_degree i (d ∷ ds) g j = ground (
  arith,
  link-in_degree i ds
      (record {
        in_degree = update g.in_degree i (g.in_degree i + 1);
        edges = update g.edges d (g.edges d ++ i ∷ []);
      })
      j,
)

link-edges :
    (i : ℕ) (ds : List ℕ) (g : Graph) (d j : ℕ)
    → count j ((link i ds g).edges d) ≡ count j (g.edges d) + (if i == j then count d ds else 0)
unfolding link
link-edges i [] g d j = ground (arith, count-nil d)
link-edges i (e ∷ ds) g d j = ground (
  arith,
  link-edges i ds
      (record {
        in_degree = update g.in_degree i (g.in_degree i + 1);
        edges = update g.edges e (g.edges e ++ i ∷ []);
      })
      d j,
  count-cons d e ds,
  count-append j (g.edges d) (i ∷ []),
  count-cons j i [],
  count-nil j,
)

module _ {ℓ} {T : Type ℓ} (m : Dict ℕ) where
  build-in_degree :
      (i : ℕ) (items : List (DependencyItem T)) (g : Graph) (j : ℕ)
      → (build m i items g).in_degree j ≡ g.in_degree j + length (deps_from m i items j)
  unfolding build
  build-in_degree i [] g j = omega arith
  build-in_degree i (item ∷ items) g j =
      let ds = resolve m item.dependencies in
      ground (
        arith,
        build-in_degree (suc i) items (link i ds g) j,
        link-in_degree i ds g j,
        ap (length {A = ℕ}) (deps_from_before m (suc i) items i (omega arith)),
      )

  build-edges :
      (i : ℕ) (items : List (DependencyItem T)) (g : Graph) (d j : ℕ)
      → count j ((build m i items g).edges d)
        ≡ count j (g.edges d) + count d (deps_from m i items j)
  unfolding build
  build-edges i [] g d j = omega (arith, count-nil d)
  build-edges i (item ∷ items) g d j =
      let ds = resolve m item.dependencies in
      ground (
        arith,
        build-edges (suc i) items (link i ds g) d j,
        link-edges i ds g d j,
        ap (count d) (deps_from_before m (suc i) items i (omega arith)),
        count-nil d,
      )

module _ {ℓ} {T : Type ℓ} (items : List (DependencyItem T)) where
  pub graph_of-in_degree : (j : ℕ) → (graph_of items).in_degree j ≡ length (deps_of items j)
  unfolding graph_of
  graph_of-in_degree j =
      omega (arith, build-in_degree (index_by_name 0 Dict.empty items) 0 items no_edges j)

  pub graph_of-edges : (d j : ℕ) → count j ((graph_of items).edges d) ≡ count d (deps_of items j)
  unfolding graph_of
  graph_of-edges d j =
      omega
        (arith, build-edges (index_by_name 0 Dict.empty items) 0 items no_edges d j, count-nil j)
