-- ===== src/Tests/Cache.antt =====
-- Runs of pkg/cache/memory/store.go.
use sdkit.Base.{◌+◌, ◌≡◌, ◌≢◌, refl, [], ◌∷◌, none, some, arith}
use sdkit.Base.Int.{pos, negsuc}
use sdkit.Base.Dict
use sdkit.Cache.{MemItem, Store, new, get, set, exists, incr, ttl, cleanup}
use sdkit.Cache.Counter.{parse_from, parse_int64, format_int64, increment, parse_int64-format_int64}
use sdkit.Cache.View.{view, view-cleanup}
use sdkit.Cache.Expiry.{incr_each, view-incr_each, end_of_ttl}

-- "a" for ten nanoseconds from the time 100, and "b" for good.
filled : Store
unfolding new set Dict.empty Dict.put
filled = set 100 "b" "2" (pos 0) (set 100 "a" "1" (pos 10) new)

incr_runs : (incr 5 "b" filled).1 ≡ pos 3
unfolding filled incr parse_int64 parse_from increment Dict.get
incr_runs = refl

view-cleanup_example : view (cleanup 111 filled) 120 "b" ≡ view filled 120 "b"
view-cleanup_example = view-cleanup 111 filled 120 "b" (omega arith)

parse_int64-format_int64_example : parse_int64 (format_int64 1305) ≡ 1305
parse_int64-format_int64_example = parse_int64-format_int64 1305 (omega arith)

nothing_there : view new 1 "n" ≡ none
unfolding new Dict.empty Dict.get
nothing_there = refl

view-incr_each_example : view (incr_each (1 ∷ 2 ∷ 3 ∷ []) "n" new) 9 "n" ≡ some (format_int64 3)
view-incr_each_example = view-incr_each 1 (2 ∷ 3 ∷ []) "n" new 9 nothing_there (omega arith)

end_of_ttl_example :
    ((get (100 + 10) "a" (set 100 "a" "1" (pos 10) new)).1 ≡ "1")
    × (exists (100 + 10) ("a" ∷ []) (set 100 "a" "1" (pos 10) new) ≡ 0)
    × (ttl (100 + 10) "a" (set 100 "a" "1" (pos 10) new) ≡ negsuc 1)
end_of_ttl_example = end_of_ttl 100 "a" "1" 10 new (omega arith)

no_end : (item : MemItem) → Dict.get filled.items "b" ≡ some item → item.expire ≢ some 50
unfolding filled Dict.get
no_end item h = ground arith
