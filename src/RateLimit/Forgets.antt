-- ===== src/RateLimit/Forgets.antt =====
-- What the cleanup of the memory store does to counters.
use sdkit.Base.{ℕ, ◌+◌, ◌/◌, ◌<◌, ◌≡◌, refl, String, Option, none, some, arith}
use sdkit.Base.Dict
use sdkit.Base.Dict.{Dict, kept, get-retain}
use sdkit.RateLimit.{CounterSlot, MemoryStore, counted, counter, cleanup, keeps_counter}

counted-kept :
    (now ttl n : ℕ) (key : String) (o : Option CounterSlot)
    → now / ttl + 10 < now / 1_000_000_000
    → (counted (kept (λ k slot. keeps_counter now slot) key o) (now / ttl) n).count ≡ n
counted-kept now ttl n key none h = refl
counted-kept now ttl n key (some slot) h = ground arith

-- If the number of the current window is more than ten less than the number of seconds, then after
-- a cleanup every counter starts again: it answers only the requests of the call itself.
pub counter-cleanup :
    (now ttl n : ℕ) (key : String) (s : MemoryStore)
    → now / ttl + 10 < now / 1_000_000_000
    → (counter now key n ttl (cleanup now s)).0 ≡ n
unfolding counter cleanup
counter-cleanup now ttl n key s h =
    rw (get-retain (λ k slot. keeps_counter now slot) s.counters key)
      (counted-kept now ttl n key (Dict.get s.counters key) h)
