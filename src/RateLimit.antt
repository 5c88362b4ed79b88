-- ===== src/RateLimit.antt =====
-- pkg/ratelimit: the counters and windows of store/memory.go and the window strategies of strategy/.
-- Each operation of the store is one step under its lock, at a time `now` in nanoseconds that is an
-- argument. Durations, limits and numbers of requests are not negative, and a window is not zero.
-- The map of token limiters belongs to golang.org/x/time/rate and is left out.
pub mod Fixed
pub mod Sliding
pub mod Forgets
use sdkit.Base.{
  ℕ, ◌+◌, ◌-◌, ◌*◌, ◌/◌, ◌<◌, String, Bool, true, false, not, ◌&&◌, Option, none, some, List, [],
  ◌∷◌, ◌++◌, length, replicate, leb, ltb, ◌==◌, if◌then◌else◌,
}
use sdkit.Base.Dict
use sdkit.Base.Dict.{Dict}

pub record CounterSlot : Type 0 where
  pub count : ℕ
  pub window : ℕ

pub record MemoryStore : Type 0 where
  pub counters : Dict CounterSlot
  pub windows : Dict (List ℕ)

unfoldable pub new_memory_store : MemoryStore
new_memory_store = record { counters = Dict.empty; windows = Dict.empty }

-- The slot of a counter after `n` more, in the window `cur`.
abbrev pub counted : Option CounterSlot → ℕ → ℕ → CounterSlot
counted none cur n = record { count = n; window = cur }
counted (some slot) cur n =
    if not (slot.window == cur)
    then record { count = n; window = cur }
    else record { count = slot.count + n; window = cur }

-- CounterContext, for a ttl that is not zero.
unfoldable pub counter : ℕ → String → ℕ → ℕ → MemoryStore → ℕ × MemoryStore
counter now key n ttl s =
    let slot = counted (Dict.get s.counters key) (now / ttl) n in
    (slot.count, record s { counters = Dict.put s.counters key slot })

-- slots[start:]: what follows the entries up to ts - window.
unfoldable pub trim : ℕ → ℕ → List ℕ → List ℕ
trim ts window [] = []
trim ts window (t ∷ slots) =
    let rest = trim ts window slots in if ltb ts (t + window) then t ∷ slots else rest

-- A nil slice for a key that is missing.
abbrev pub slots_of : Option (List ℕ) → List ℕ
slots_of none = []
slots_of (some slots) = slots

-- WindowAddContext
unfoldable pub window_add : String → ℕ → ℕ → ℕ → MemoryStore → ℕ × MemoryStore
unfolding trim
window_add key ts n window s =
    let slots = trim ts window (slots_of (Dict.get s.windows key)) ++ replicate n ts in
    (length slots, record s { windows = Dict.put s.windows key slots })

-- The last entry of a slice, if there is one.
abbrev pub last : List ℕ → Option ℕ
last [] = none
last (t ∷ []) = some t
last (t ∷ u ∷ slots) = last (u ∷ slots)

-- slot.window < now/int64(time.Second)-10, negated
abbrev pub keeps_counter : ℕ → CounterSlot → Bool
keeps_counter now slot = leb (now / 1_000_000_000) (slot.window + 10)

-- Neither empty nor older than an hour.
abbrev pub keeps_window : ℕ → Option ℕ → Bool
keeps_window now none = false
keeps_window now (some t) = leb now (t + 3_600_000_000_000)

unfoldable pub cleanup : ℕ → MemoryStore → MemoryStore
cleanup now s = record {
  counters = Dict.retain (λ key slot. keeps_counter now slot) s.counters;
  windows = Dict.retain (λ key slots. keeps_window now (last slots)) s.windows;
}

pub record Strategy : Type 0 where
  pub window : ℕ
  pub limit : ℕ

-- FixedWindow.AllowNContext, on a memory store
unfoldable pub fixed_allow_n : Strategy → ℕ → String → ℕ → MemoryStore → Bool × MemoryStore
unfolding counter
fixed_allow_n w now key n s =
    let (count, s') = counter now key n w.window s in (leb count w.limit, s')

-- SlidingWindow.AllowNContext, on a memory store
unfoldable pub sliding_allow_n : Strategy → ℕ → String → ℕ → MemoryStore → Bool × MemoryStore
unfolding window_add
sliding_allow_n w now key n s =
    let (count, s') = window_add key now n w.window s in (leb count w.limit, s')

-- A call of AllowN: its time and its number of requests.
pub record Call : Type 0 where
  pub now : ℕ
  pub n : ℕ

-- What happens to a store: a call, or the cleanup of the store's own goroutine at a time.
pub data Event : Type 0 where
  calling : Call → Event
  cleaning : ℕ → Event

-- How many requests a run of events admits, one after the other.
unfoldable pub admitted : (Call → MemoryStore → Bool × MemoryStore) → List Event → MemoryStore → ℕ
unfolding cleanup
admitted allow [] s = 0
admitted allow (calling c ∷ events) s =
    let (allowed, s') = allow c s in
    let rest = admitted allow events s' in if allowed then c.n + rest else rest
admitted allow (cleaning now ∷ events) s = admitted allow events (cleanup now s)

abbrev pub fixed_call : Strategy → String → Call → MemoryStore → Bool × MemoryStore
fixed_call w key c s = fixed_allow_n w c.now key c.n s

abbrev pub sliding_call : Strategy → String → Call → MemoryStore → Bool × MemoryStore
sliding_call w key c s = sliding_allow_n w c.now key c.n s
