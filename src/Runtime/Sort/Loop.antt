-- ===== src/Runtime/Sort/Loop.antt =====
-- The queue loop of sortDependencyItems: its invariant, that the fuel is enough, and how it ends.
use sdkit.Base.{
  ℕ, zero, suc, ◌+◌, ◌≤◌, ◌≡◌, sym, ap, some, List, [], ◌∷◌, ◌++◌, arith, ◌==◌, ltb, if◌then◌else◌,
  length, length-append,
}
use mathlib.Core.List.{append-nil, append_assoc}
use sdkit.Base.Count.{
  count, count-nil, count-cons, count-append, bit, sum_below-count, sum_below-le,
}
use sdkit.Runtime.Sort.{relax, drain}
use sdkit.Runtime.Sort.Relax.{relax-degree, relax-queue, pending, pending-none, pending-snoc}

-- Each index stands behind everything that it depends on: `seen` came before.
abbrev pub IsOrdered : (ℕ → List ℕ) → List ℕ → List ℕ → Type 0
IsOrdered deps seen [] = Unit
IsOrdered deps seen (c ∷ cs) = (pending seen (deps c) ≡ 0) × IsOrdered deps (seen ++ c ∷ []) cs

-- What holds whenever the loop tests its condition. `deps` are the dependencies of each index.
pub record Inv (n : ℕ) (deps edges : ℕ → List ℕ) (g : ℕ → ℕ) (q out : List ℕ) : Type 0 where
  pub linked : (d j : ℕ) → count j (edges d) ≡ count d (deps j)
  pub degree : (j : ℕ) → g j ≡ pending out (deps j)
  pub placed : (j : ℕ) → count j out + count j q ≡ (if ltb j n then bit (g j == 0) else 0)

-- The end of the loop: exactly the indices with nothing pending are out, each once.
abbrev pub IsDone : ℕ → (ℕ → List ℕ) → List ℕ → Type 0
IsDone n deps out = (j : ℕ) → count j out ≡ (if ltb j n then bit (pending out (deps j) == 0) else 0)

pending-outside :
    {n : ℕ} {deps : ℕ → List ℕ} (outside : (j : ℕ) → n ≤ j → deps j ≡ []) (out : List ℕ) (j : ℕ)
    → n ≤ j
    → pending out (deps j) ≡ 0
pending-outside outside out j h = rw (outside j h) (pending-none out)

module _ {n : ℕ} {deps edges : ℕ → List ℕ} (outside : (j : ℕ) → n ≤ j → deps j ≡ []) where
  done : {g : ℕ → ℕ} {out : List ℕ} → Inv n deps edges g [] out → IsDone n deps out
  done {g} {out} inv j = ground (arith, inv.placed j, inv.degree j, count-nil j)

  head_ready :
      {g : ℕ → ℕ} {c : ℕ} {q out : List ℕ}
      → Inv n deps edges g (c ∷ q) out
      → (g c ≡ 0) × (count c out ≡ 0)
  head_ready {g} {c} {q} {out} inv = ground (arith, inv.placed c, count-cons c c q)

  step-Inv :
      {g : ℕ → ℕ} {c : ℕ} {q out : List ℕ}
      → Inv n deps edges g (c ∷ q) out
      → Inv n deps edges (relax (edges c) g q).0 (relax (edges c) g q).1 (out ++ c ∷ [])
  step-Inv {g} {c} {q} {out} inv = record {
    linked = inv.linked;
    degree = degree';
    placed = placed';
  }
    where
      degree' : (j : ℕ) → (relax (edges c) g q).0 j ≡ pending (out ++ c ∷ []) (deps j)
      degree' j = omega (
        arith,
        relax-degree (edges c) g q j,
        inv.degree j,
        inv.linked c j,
        pending-snoc out c (deps j) (head_ready inv).1,
      )

      placed' :
          (j : ℕ)
          → count j (out ++ c ∷ []) + count j (relax (edges c) g q).1
            ≡ (if ltb j n then bit ((relax (edges c) g q).0 j == 0) else 0)
      placed' j = ground (
        arith,
        relax-queue (edges c) g q j,
        relax-degree (edges c) g q j,
        inv.placed j,
        inv.degree j,
        count-append j out (c ∷ []),
        count-cons j c [],
        count-cons j c q,
        count-nil j,
        pending-outside outside out j,
      )

  -- No more indices are queued or out than there are items.
  room : {g : ℕ → ℕ} {q out : List ℕ} → Inv n deps edges g q out → length (out ++ q) ≤ n
  room {g} {q} {out} inv = omega (
    arith,
    sum_below-count n (out ++ q) (λ j h. ground (arith, inv.placed j, count-append j out q)),
    sum_below-le n (λ j. count j (out ++ q))
        (λ j. ground (arith, inv.placed j, count-append j out q)),
  )

  -- With fuel for the items that are not out, the loop ends, and what it adds is in order.
  pub drain_total :
      (fuel : ℕ) (g : ℕ → ℕ) (q out : List ℕ)
      → Inv n deps edges g q out
      → n ≤ fuel + length out
      → (rest : List ℕ) × (drain fuel edges g q out ≡ some (out ++ rest))
        × IsDone n deps (out ++ rest)
        × IsOrdered deps out rest
  unfolding drain
  drain_total fuel g [] out inv h =
      ([], ap some (sym (append-nil out)), rw append-nil (done inv), tt)
  drain_total zero g (c ∷ q) out inv h = absurd (omega (arith, room inv, length-append out (c ∷ q)))
  drain_total (suc fuel) g (c ∷ q) out inv h =
      let r = relax (edges c) g q in
      let (rest, ends, all_done, in_order) =
        drain_total fuel r.0 r.1 (out ++ c ∷ []) (step-Inv inv)
          (omega (arith, length-append out (c ∷ []))) in
      (
        c ∷ rest,
        rw append_assoc at ends,
        rw append_assoc at all_done,
        (omega (arith, inv.degree c, (head_ready inv).0), in_order),
      )
