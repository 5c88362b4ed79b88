-- ===== src/Runtime/Sort/Complete.antt =====
-- When sortDependencyItems succeeds: exactly when the dependencies have no cycle.
use sdkit.Base.{
  ℕ, zero, suc, ◌+◌, ◌≤◌, ◌<◌, ◌≡◌, ◌⊎◌, inl, inr, refl, some, List, [], ◌∷◌, Bool, true, not,
  String, arith, ◌==◌, ltb, ◌&&◌, length, Bool-cases, Option-cases,
}
use sdkit.Base.Count.{count, count-nil, count-cons, sum_below-count, sum_below-short, sum_below-le}
use sdkit.Base.Dict
use sdkit.Base.Dict.{Dict, get-put, get-empty}
use sdkit.Runtime.Sort.{
  Dependency, DependencyItem, Sorted, sorted, failed, SortError, cycle, index_by_name, resolve,
  finish, sort_dependency_items,
}
use sdkit.Runtime.Sort.Relax.{pending, pending-witness}
use sdkit.Runtime.Sort.Loop.{IsDone}
use sdkit.Runtime.Sort.Order.{drain_items_total}
use sdkit.Runtime.Sort.Edges.{deps_from, deps_of}

module _ {ℓ} {T : Type ℓ} where
  -- An index in the map is that of an item, or was there before.
  index_by_name-bound :
      (i : ℕ) (m : Dict ℕ) (items : List (DependencyItem T)) (k : String) (d : ℕ)
      → Dict.get (index_by_name i m items) k ≡ some d
      → (Dict.get m k ≡ some d) ⊎ (d < i + length items)
  unfolding index_by_name
  index_by_name-bound i m [] k d h = inl h
  index_by_name-bound i m (item ∷ items) k d h =
      elim (index_by_name-bound (suc i) (Dict.put m item.name i) items k d h) [
        | inl old ↦ ground (arith, get-put m item.name k i)
        | inr new ↦ inr (omega arith)
      ]

resolve-bound :
    (n : ℕ) (m : Dict ℕ) (deps : List Dependency)
    → ((k : String) (d : ℕ) → Dict.get m k ≡ some d → d < n)
    → (d : ℕ) → 0 < count d (resolve m deps)
    → d < n
unfolding resolve
resolve-bound n m [] h d p = absurd (omega (arith, count-nil d))
resolve-bound n m (dep ∷ deps) h d p = elim (Option-cases (Dict.get m dep.name)) [
  | inl e ↦ resolve-bound n m deps h d (rw (e, resolve) at p)
  | inr (e, found) ↦
      ground
        (arith, h dep.name e found, count-cons d e (resolve m deps), resolve-bound n m deps h d)
]

module _ {ℓ} {T : Type ℓ} where
  deps_from-bound :
      (n : ℕ) (m : Dict ℕ) (i : ℕ) (items : List (DependencyItem T)) (j d : ℕ)
      → ((k : String) (d : ℕ) → Dict.get m k ≡ some d → d < n)
      → 0 < count d (deps_from m i items j)
      → d < n
  deps_from-bound n m i [] j d h p = absurd (omega (arith, count-nil d))
  deps_from-bound n m i (item ∷ items) j d h p = elim (Bool-cases (i == j)) [
    | inl e ↦ resolve-bound n m item.dependencies h d (rw e at p)
    | inr e ↦ deps_from-bound n m (suc i) items j d h (rw e at p)
  ]

module _ {ℓ} {T : Type ℓ} (items : List (DependencyItem T)) where
  -- A dependency index is the index of an item.
  pub deps_of-bound : (j d : ℕ) → 0 < count d (deps_of items j) → d < length items
  deps_of-bound j d =
      deps_from-bound (length items) _ 0 items j d
        λ k e h. ground (arith, index_by_name-bound 0 Dict.empty items k e h, get-empty {V = ℕ} k)

  -- Items that wait for one another: there is one, and each depends on one of them.
  pub record IsStuck (waiting : ℕ → Bool) : Type 0 where
    pub some_item : ℕ
    pub is_item : some_item < length items
    pub waits : waiting some_item ≡ true
    pub step :
        (i : ℕ)
        → waiting i ≡ true
        → (d : ℕ) × (0 < count d (deps_of items i)) × (d < length items) × (waiting d ≡ true)

  -- A rank of the items that falls from each item to its dependencies.
  abbrev pub IsRank : (ℕ → ℕ) → Type 0
  IsRank rank = (i d : ℕ) → 0 < count d (deps_of items i) → rank d < rank i

  waiting_for : List ℕ → ℕ → Bool
  waiting_for out i = ltb i (length items) && not (pending out (deps_of items i) == 0)

  out_of_waiting :
      (out : List ℕ) (i : ℕ)
      → IsDone (length items) (deps_of items) out
      → i < length items
      → count i out ≡ 0
      → waiting_for out i ≡ true
  unfolding waiting_for
  out_of_waiting out i done h absent = ground (arith, done i)

  waits_on :
      (out : List ℕ) (i : ℕ)
      → IsDone (length items) (deps_of items) out
      → waiting_for out i ≡ true
      → (d : ℕ) × (0 < count d (deps_of items i)) × (d < length items) × (waiting_for out d ≡ true)
  unfolding waiting_for
  waits_on out i done h =
      let (d, needed, absent) = pending-witness out (deps_of items i) (ground arith) in
      let low = deps_of-bound i d needed in (d, needed, low, out_of_waiting out d done low absent)

  IsStuck-of_short :
      (out : List ℕ)
      → IsDone (length items) (deps_of items) out
      → length out < length items
      → (waiting : ℕ → Bool) × IsStuck waiting
  IsStuck-of_short out done short =
      let (i, low, absent) =
        sum_below-short (length items) (λ j. count j out) (λ j. ground (arith, done j))
          (omega
            (arith, sum_below-count (length items) out (λ j h. ground (arith, done j)), short)) in
      (
        waiting_for out,
        record {
          some_item = i;
          is_item = low;
          waits = out_of_waiting out i done low absent;
          step = λ j h. waits_on out j done h;
        },
      )

  -- A set of waiting items contradicts every rank.
  no_rank :
      (rank : ℕ → ℕ) (waiting : ℕ → Bool)
      → IsRank rank
      → IsStuck waiting
      → (bound i : ℕ) → rank i < bound
      → waiting i ≡ true
      → ⊥
  no_rank rank waiting falls stuck zero i h w = elim h [ ]
  no_rank rank waiting falls stuck (suc bound) i h w =
      let (d, needed, low, next) = stuck.step i w in
      no_rank rank waiting falls stuck bound d (omega (arith, falls i d needed)) next

  length_of_done :
      (out : List ℕ) → IsDone (length items) (deps_of items) out → length out ≤ length items
  length_of_done out done = omega (
    arith,
    sum_below-count (length items) out (λ j h. ground (arith, done j)),
    sum_below-le (length items) (λ j. count j out) (λ j. ground (arith, done j)),
  )

  -- A failed sort reports a cycle, never the end of the fuel, and then some items wait, at least
  -- one, each of which depends on an item that waits.
  pub sort_dependency_items-IsStuck :
      (e : SortError)
      → sort_dependency_items items ≡ failed e
      → (e ≡ cycle) × ((waiting : ℕ → Bool) × IsStuck waiting)
  unfolding sort_dependency_items
  sort_dependency_items-IsStuck e h =
      let (out, ends, done, ordered) = drain_items_total items in
      let ended : finish items (some out) ≡ failed e = rw ends at h in
      (ground arith, IsStuck-of_short out done (ground (arith, length_of_done out done)))

  -- If the items have a rank that falls to their dependencies, the sort succeeds.
  pub sort_dependency_items-sorted :
      (rank : ℕ → ℕ) → IsRank rank → (vs : List T) × (sort_dependency_items items ≡ sorted vs)
  sort_dependency_items-sorted rank falls = go (sort_dependency_items items) refl
    where
      go :
          (r : Sorted T)
          → sort_dependency_items items ≡ r
          → (vs : List T) × (sort_dependency_items items ≡ sorted vs)
      go (sorted vs) h = (vs, h)
      go (failed e) h =
          let (_, (waiting, stuck)) = sort_dependency_items-IsStuck e h in
          absurd (
            no_rank rank waiting falls stuck (rank stuck.some_item + 1) stuck.some_item
              (omega arith) stuck.waits)
