-- ===== src/Runtime/Sort/Order.antt =====
-- What sortDependencyItems returns when it succeeds, and that it always ends.
use sdkit.Base.{
  ℕ, zero, suc, ◌+◌, ◌<◌, ◌≡◌, ◌∙◌, some, List, [], arith, ◌==◌, ltb, leb, ◌&&◌, if◌then◌else◌,
  length,
}
use sdkit.Base.Count.{count, count-nil, count-cons, bit, sum_below-count, sum_below-full}
use sdkit.Runtime.Sort.{
  DependencyItem, sorted, roots, graph_of, drain_items, values, finish, sort_dependency_items,
}
use sdkit.Runtime.Sort.Edges.{deps_of, deps_from_after, graph_of-in_degree, graph_of-edges}
use sdkit.Runtime.Sort.Relax.{pending-nil}
use sdkit.Runtime.Sort.Loop.{Inv, IsOrdered, IsDone, drain_total}

roots-count :
    (g : ℕ → ℕ) (i k j : ℕ)
    → count j (roots g i k) ≡ (if leb i j && ltb j (i + k) then bit (g j == 0) else 0)
unfolding roots
roots-count g i zero j = ground (arith, count-nil j)
roots-count g i (suc k) j =
    ground (arith, roots-count g (suc i) k j, count-cons j i (roots g (suc i) k))

module _ {ℓ} {T : Type ℓ} where
  finish_sorted :
      (items : List (DependencyItem T)) (out : List ℕ) {vs : List T}
      → finish items (some out) ≡ sorted vs
      → (vs ≡ values items out) × (length out ≡ length items)
  finish_sorted items out h = ground arith

module _ {ℓ} {T : Type ℓ} (items : List (DependencyItem T)) where
  start-Inv :
      Inv
        (length items)
        (deps_of items)
        (graph_of items).edges
        (graph_of items).in_degree
        (roots (graph_of items).in_degree 0 (length items))
        []
  start-Inv = record {
    linked = graph_of-edges items;
    degree = λ j. omega (arith, graph_of-in_degree items j, pending-nil (deps_of items j));
    placed =
        λ j. ground (arith, roots-count (graph_of items).in_degree 0 (length items) j, count-nil j);
  }

  -- The loop ends within its fuel; what is out then has nothing pending, and stands in order.
  pub drain_items_total :
      (out : List ℕ) × (drain_items items ≡ some out)
      × IsDone (length items) (deps_of items) out
      × IsOrdered (deps_of items) [] out
  unfolding drain_items
  drain_items_total =
      drain_total (λ j h. deps_from_after _ 0 items j (omega arith)) (length items)
        (graph_of items).in_degree (roots (graph_of items).in_degree 0 (length items)) [] start-Inv
        (omega arith)

  -- `out` lists the index of every item once, each behind the items that it depends on.
  pub record IsPlan (out : List ℕ) : Type 0 where
    pub once : (j : ℕ) → count j out ≡ (if ltb j (length items) then 1 else 0)
    pub ordered : IsOrdered (deps_of items) [] out

  IsPlan-of_done :
      (out : List ℕ)
      → IsDone (length items) (deps_of items) out
      → IsOrdered (deps_of items) [] out
      → length out ≡ length items
      → IsPlan out
  IsPlan-of_done out done ordered full = record {
    once = λ j. ground (arith, done j, filled j);
    ordered = ordered;
  }
    where
      filled : (j : ℕ) → j < length items → count j out ≡ 1
      filled j =
          sum_below-full (length items) (λ i. count i out) (λ i. ground (arith, done i))
            (sum_below-count (length items) out (λ i h. ground (arith, done i)) ∙ full) j

  -- A successful sort puts out the value of every item, once each, and each item stands behind all
  -- the items that its dependencies name.
  pub sort_dependency_items-IsPlan :
      (vs : List T)
      → sort_dependency_items items ≡ sorted vs
      → (out : List ℕ) × (vs ≡ values items out) × IsPlan out
  unfolding sort_dependency_items
  sort_dependency_items-IsPlan vs h =
      let (out, ends, done, ordered) = drain_items_total in
      let (e, full) = finish_sorted items out (rw ends at h) in
      (out, e, IsPlan-of_done out done ordered full)
