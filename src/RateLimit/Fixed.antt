-- ===== src/RateLimit/Fixed.antt =====
-- What FixedWindow admits in one window.
use sdkit.Base.{
  ℕ, ◌+◌, ◌-◌, ◌/◌, ◌≤◌, ◌≡◌, refl, ap, ◌∙◌, sym, subst, String, Option, none, some, List, [], ◌∷◌,
  All, arith, leb, ◌==◌, str_eq_refl, if◌then◌else◌,
}
use sdkit.Base.Dict
use sdkit.Base.Dict.{Dict, get-put, kept, get-retain}
use sdkit.RateLimit.{
  CounterSlot, MemoryStore, counted, counter, Strategy, fixed_allow_n, Event, calling, cleaning,
  admitted, fixed_call, cleanup, keeps_counter,
}

-- What a key has used up of the window `cur`.
abbrev pub used : ℕ → Option CounterSlot → ℕ
used cur none = 0
used cur (some slot) = if slot.window == cur then slot.count else 0

counted-used :
    (o : Option CounterSlot) (cur n : ℕ)
    → ((counted o cur n).count ≡ used cur o + n)
      × (used cur (some (counted o cur n)) ≡ used cur o + n)
counted-used none cur n = ground arith
counted-used (some slot) cur n = ground arith

own_slot :
    (m : Dict CounterSlot) (key : String) (slot : CounterSlot)
    → Dict.get (Dict.put m key slot) key ≡ some slot
own_slot m key slot = ground (arith, get-put m key key slot, str_eq_refl key)

spend :
    (limit before after n count rest : ℕ)
    → count ≡ before + n
    → after ≡ before + n
    → rest ≤ limit - after
    → (if leb count limit then n + rest else rest) ≤ limit - before
spend limit before after n count rest e f h = ground arith

-- A call in the window `cur`, or a cleanup that keeps the counters of that window.
abbrev pub IsWithin : Strategy → ℕ → Event → Type 0
IsWithin w cur (calling c) = c.now / w.window ≡ cur
IsWithin w cur (cleaning now) = now / 1_000_000_000 ≤ cur + 10

used-kept :
    (now cur : ℕ) (key : String) (o : Option CounterSlot)
    → now / 1_000_000_000 ≤ cur + 10
    → used cur (kept (λ k slot. keeps_counter now slot) key o) ≡ used cur o
used-kept now cur key none h = refl
used-kept now cur key (some slot) h = ground arith

-- In one window a key is admitted at most the limit, less what it has used up already. Cleanups may
-- come in between, at times whose seconds are at most ten more than the number of the window, as they
-- are in a window of a second or less.
pub admitted-fixed_call :
    (w : Strategy) (key : String) (cur : ℕ) (events : List Event) (s : MemoryStore)
    → All (IsWithin w cur) events
    → admitted (fixed_call w key) events s ≤ w.limit - used cur (Dict.get s.counters key)
unfolding admitted fixed_allow_n counter cleanup
admitted-fixed_call w key cur [] s h = omega arith
admitted-fixed_call w key cur (cleaning now ∷ events) s (h, hs) =
    subst (λ u. admitted (fixed_call w key) events (cleanup now s) ≤ w.limit - u)
      (ap (used cur) (get-retain (λ k slot. keeps_counter now slot) s.counters key)
        ∙ used-kept now cur key (Dict.get s.counters key) h)
      (admitted-fixed_call w key cur events (cleanup now s) hs)
admitted-fixed_call w key cur (calling c ∷ calls) s (h, hs) =
    let o = Dict.get s.counters key in
    let cur' = c.now / w.window in
    let slot = counted o cur' c.n in
    let s' = record s { counters = Dict.put s.counters key slot } in
    let rest = admitted-fixed_call w key cur calls s' hs in
    let bound =
      subst (λ x. admitted (fixed_call w key) calls s' ≤ w.limit - used x (some slot)) (sym h)
        (subst (λ p. admitted (fixed_call w key) calls s' ≤ w.limit - used cur p)
          (own_slot s.counters key slot) rest) in
    let (count, after) = counted-used o cur' c.n in
    subst (λ x. admitted (fixed_call w key) (calling c ∷ calls) s ≤ w.limit - used x o) h
      (spend w.limit (used cur' o) (used cur' (some slot)) c.n slot.count
        (admitted (fixed_call w key) calls s') count after bound)
