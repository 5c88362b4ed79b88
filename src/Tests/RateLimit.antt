-- ===== src/Tests/RateLimit.antt =====
-- Runs of the window strategies, three requests for each 100 nanoseconds.
use sdkit.Base.{ℕ, ◌-◌, ◌≤◌, ◌≡◌, refl, inl, List, [], ◌∷◌, arith}
use sdkit.Base.Dict
use sdkit.RateLimit.{
  new_memory_store, counter, window_add, trim, cleanup, Strategy, Event, calling, cleaning,
  fixed_allow_n, sliding_allow_n, admitted, fixed_call, sliding_call, slots_of,
}
use sdkit.RateLimit.Fixed.{used, admitted-fixed_call}
use sdkit.RateLimit.Sliding.{live, admitted-sliding_call}
use sdkit.RateLimit.Forgets.{counter-cleanup}

abbrev three : Strategy
three = record { window = 100; limit = 3 }

-- Three calls, with a cleanup among them.
abbrev events : List Event
events =
    calling (record { now = 510; n = 2 })
    ∷ calling (record { now = 520; n = 2 })
    ∷ cleaning 530
    ∷ calling (record { now = 590; n = 1 })
    ∷ []

fixed_runs : admitted (fixed_call three "k") events new_memory_store ≡ 2
unfolding admitted cleanup fixed_allow_n counter Dict.retain new_memory_store Dict.get Dict.put
    Dict.empty
fixed_runs = refl

sliding_runs : admitted (sliding_call three "k") events new_memory_store ≡ 2
unfolding admitted cleanup sliding_allow_n window_add trim Dict.retain new_memory_store Dict.get
    Dict.put Dict.empty
sliding_runs = refl

admitted-fixed_call_example :
    admitted (fixed_call three "k") events new_memory_store
    ≤ 3 - used 5 (Dict.get new_memory_store.counters "k")
admitted-fixed_call_example =
    admitted-fixed_call three "k" 5 events new_memory_store
      (refl, (refl, (omega arith, (refl, tt))))

admitted-sliding_call_example :
    admitted (sliding_call three "k") events new_memory_store
    ≤ 3 - live 600 100 (slots_of (Dict.get new_memory_store.windows "k"))
unfolding new_memory_store Dict.get Dict.empty
admitted-sliding_call_example =
    admitted-sliding_call three "k" 600 events new_memory_store (inl refl) (
      (omega arith, omega arith),
      ((omega arith, omega arith), ((omega arith, omega arith), ((omega arith, omega arith), tt))),
    )

-- Two requests in the minute that the time is in, before a cleanup and one more.
abbrev minute : ℕ
minute = 60_000_000_000

abbrev noon : ℕ
noon = 1_764_158_400_000_000_000

counter_goes_on : (counter noon "k" 1 minute (counter noon "k" 2 minute new_memory_store).1).0 ≡ 3
unfolding counter new_memory_store Dict.get Dict.put Dict.empty
counter_goes_on = refl

counter-cleanup_example :
    (counter noon "k" 1 minute (cleanup noon (counter noon "k" 2 minute new_memory_store).1)).0 ≡ 1
counter-cleanup_example =
    counter-cleanup noon minute 1 "k" (counter noon "k" 2 minute new_memory_store).1 (omega arith)
