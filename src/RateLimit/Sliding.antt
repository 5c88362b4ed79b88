-- ===== src/RateLimit/Sliding.antt =====
-- What SlidingWindow admits in any span shorter than its window.
use sdkit.Base.{
  append_nil, ℕ, zero, suc, ◌+◌, ◌-◌, ◌≤◌, ◌<◌, ◌≡◌, ◌⊎◌, inl, inr, refl, sym, ap, ◌∙◌, subst,
  String, Option, none, some, Bool-cases, List, [], ◌∷◌, ◌++◌, All, arith, length, replicate, leb,
  ltb, str_eq_refl, if◌then◌else◌,
}
use sdkit.Base.Dict
use sdkit.Base.Dict.{Dict, get-put, kept, get-retain}
use sdkit.RateLimit.{
  MemoryStore, trim, slots_of, window_add, Strategy, sliding_allow_n, Event, calling, cleaning,
  admitted, sliding_call, last, cleanup, keeps_window,
}

-- How many entries are less than `window` old at the time `end`.
abbrev pub live : ℕ → ℕ → List ℕ → ℕ
live end window [] = 0
live end window (t ∷ slots) =
    let rest = live end window slots in if ltb end (t + window) then 1 + rest else rest

live-trim :
    (ts end window : ℕ) (slots : List ℕ)
    → ts ≤ end
    → live end window (trim ts window slots) ≡ live end window slots
unfolding trim
live-trim ts end window [] h = refl
live-trim ts end window (t ∷ slots) h = ground (arith, live-trim ts end window slots h)

live-append :
    (end window : ℕ) (xs ys : List ℕ)
    → live end window (xs ++ ys) ≡ live end window xs + live end window ys
live-append end window [] ys = omega arith
live-append end window (x ∷ xs) ys = ground (arith, live-append end window xs ys)

live-replicate : (end window ts n : ℕ) → end < ts + window → live end window (replicate n ts) ≡ n
live-replicate end window ts zero h = refl
live-replicate end window ts (suc n) h = ground (arith, live-replicate end window ts n h)

live_le : (end window : ℕ) (slots : List ℕ) → live end window slots ≤ length slots
live_le end window [] = omega arith
live_le end window (t ∷ slots) = ground (arith, live_le end window slots)

-- What one call leaves, for the entries `slots` that the key had.
live-after :
    (end window ts n : ℕ) (slots : List ℕ)
    → ts ≤ end
    → end < ts + window
    → live end window (trim ts window slots ++ replicate n ts) ≡ live end window slots + n
live-after end window ts n slots h early = omega (
  arith,
  live-append end window (trim ts window slots) (replicate n ts),
  live-trim ts end window slots h,
  live-replicate end window ts n early,
)

own_entry :
    {V : Type 0} (m : Dict V) (key : String) (v : V) → Dict.get (Dict.put m key v) key ≡ some v
own_entry m key v = ground (arith, get-put m key key v, str_eq_refl key)

spend_live :
    (limit before after n count rest : ℕ)
    → after ≡ before + n
    → after ≤ count
    → rest ≤ limit - after
    → (if leb count limit then n + rest else rest) ≤ limit - before
spend_live limit before after n count rest e le h = ground arith

-- The last entry is less than `window` old at the time `end`, or none is.
abbrev pub IsRecent : ℕ → ℕ → List ℕ → Type 0
IsRecent end window slots =
    (live end window slots ≡ 0) ⊎ ((t : ℕ) × (last slots ≡ some t) × (end < t + window))

last-cons : (t u : ℕ) (slots : List ℕ) → last slots ≡ some u → last (t ∷ slots) ≡ some u
last-cons t u [] h = cc
last-cons t u (v ∷ slots) h = h

last-append : (xs ys : List ℕ) (u : ℕ) → last ys ≡ some u → last (xs ++ ys) ≡ some u
last-append [] ys u h = h
last-append (x ∷ xs) ys u h = last-cons x u (xs ++ ys) (last-append xs ys u h)

last-replicate : (n t : ℕ) → last (replicate (suc n) t) ≡ some t
last-replicate zero t = refl
last-replicate (suc n) t = last-replicate n t

last-trim :
    (ts window u : ℕ) (slots : List ℕ)
    → last slots ≡ some u
    → (trim ts window slots ≡ []) ⊎ (last (trim ts window slots) ≡ some u)
unfolding trim
last-trim ts window u [] h = cc
last-trim ts window u (t ∷ []) h = elim (Bool-cases (ltb ts (t + window))) [
  | inl e ↦ inr (rw e h)
  | inr e ↦ inl (rw e refl)
]
last-trim ts window u (t ∷ v ∷ slots) h = elim (Bool-cases (ltb ts (t + window))) [
  | inl e ↦ inr (rw e h)
  | inr e ↦ rw e (last-trim ts window u (v ∷ slots) h)
]

IsRecent-trim :
    (end window ts : ℕ) (slots : List ℕ)
    → ts ≤ end
    → IsRecent end window slots
    → IsRecent end window (trim ts window slots)
IsRecent-trim end window ts slots h (inl z) = inl (live-trim ts end window slots h ∙ z)
IsRecent-trim end window ts slots h (inr (t, l, lt)) = elim (last-trim ts window t slots l) [
  | inl e ↦ inl (ap (live end window) e)
  | inr e ↦ inr (t, e, lt)
]

IsRecent-call :
    (end window ts n : ℕ) (slots : List ℕ)
    → ts ≤ end
    → end < ts + window
    → IsRecent end window slots
    → IsRecent end window (trim ts window slots ++ replicate n ts)
IsRecent-call end window ts zero slots h early recent =
    subst (IsRecent end window) (sym (append_nil (trim ts window slots)))
      (IsRecent-trim end window ts slots h recent)
IsRecent-call end window ts (suc n) slots h early recent =
    inr (
      ts,
      last-append (trim ts window slots) (replicate (suc n) ts) ts (last-replicate n ts),
      early,
    )

kept_entries :
    (now end window : ℕ) (key : String) (o : Option (List ℕ))
    → now ≤ end
    → window ≤ 3_600_000_000_000
    → IsRecent end window (slots_of o)
    → let slots = slots_of (kept (λ k slots. keeps_window now (last slots)) key o) in
      (live end window slots ≡ live end window (slots_of o)) × IsRecent end window slots
kept_entries now end window key none h short recent = (refl, recent)
kept_entries now end window key (some slots) h short recent =
    elim (Bool-cases (keeps_window now (last slots))) [
      | inl e ↦ rw e (refl, recent)
      | inr e ↦ elim recent [ inl z ↦ rw e (sym z, inl refl) | inr (t, l, lt) ↦ ground arith ]
    ]

-- A call in the span that ends at `end`, or a cleanup at a time that is not behind it, for a window of
-- at most an hour.
abbrev pub IsWithin : Strategy → ℕ → Event → Type 0
IsWithin w end (calling c) = (c.now ≤ end) × (end < c.now + w.window)
IsWithin w end (cleaning now) = (now ≤ end) × (w.window ≤ 3_600_000_000_000)

-- If the last entry of a key is less than the window old at the end of a span that is shorter than the
-- window, or none is, the key is admitted in the span at most the limit, less its entries of the window
-- that ends with the span. The calls may come in any order, with cleanups in between where the window
-- is at most an hour.
pub admitted-sliding_call :
    (w : Strategy) (key : String) (end : ℕ) (events : List Event) (s : MemoryStore)
    → IsRecent end w.window (slots_of (Dict.get s.windows key))
    → All (IsWithin w end) events
    → admitted (sliding_call w key) events s
      ≤ w.limit - live end w.window (slots_of (Dict.get s.windows key))
unfolding admitted sliding_allow_n window_add cleanup
admitted-sliding_call w key end [] s recent h = omega arith
admitted-sliding_call w key end (cleaning now ∷ events) s recent ((h, short), hs) =
    let (same, recent') =
      kept_entries now end w.window key (Dict.get s.windows key) h short recent in
    let at = get-retain (λ k slots. keeps_window now (last slots)) s.windows key in
    subst (λ n. admitted (sliding_call w key) events (cleanup now s) ≤ w.limit - n)
      (ap (λ o. live end w.window (slots_of o)) at ∙ same)
      (admitted-sliding_call w key end events (cleanup now s)
        (subst (λ o. IsRecent end w.window (slots_of o)) (sym at) recent') hs)
admitted-sliding_call w key end (calling c ∷ events) s recent ((h, early), hs) =
    let slots = slots_of (Dict.get s.windows key) in
    let kept = trim c.now w.window slots ++ replicate c.n c.now in
    let s' = record s { windows = Dict.put s.windows key kept } in
    let recent' =
      subst (λ o. IsRecent end w.window (slots_of o)) (sym (own_entry s.windows key kept))
        (IsRecent-call end w.window c.now c.n slots h early recent) in
    let rest = admitted-sliding_call w key end events s' recent' hs in
    let bound =
      subst
        (λ o. admitted (sliding_call w key) events s' ≤ w.limit - live end w.window (slots_of o))
        (own_entry s.windows key kept) rest in
    spend_live w.limit (live end w.window slots) (live end w.window kept) c.n (length kept)
      (admitted (sliding_call w key) events s') (live-after end w.window c.now c.n slots h early)
      (live_le end w.window kept) bound
