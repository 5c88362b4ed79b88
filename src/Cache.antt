-- ===== src/Cache.antt =====
-- pkg/cache/memory/store.go: the in-memory cache with expiry.
-- Times are nanoseconds; an `expire` of `none` is Go's zero time. Each operation that reads the clock
-- takes the time as its first argument, and returns the store that it leaves. The locks make each
-- operation one step, but Get, which lets go of the lock before it deletes an expired item under it:
-- its one step is a run of Get with no other operation in between. A TTL is an integer: -1 and -2 are Redis' answers.
pub mod Counter
pub mod View
pub mod Expiry
use sdkit.Base.{
  ℕ, zero, suc, ◌+◌, ◌-◌, ◌*◌, ◌/◌, ◌%◌, ◌^◌, String, Bool, true, false, not, ◌&&◌, ◌||◌, Option,
  none, some, List, [], ◌∷◌, ltb, leb, ◌==◌, if◌then◌else◌,
}
use sdkit.Base.Int.{ℤ, pos, negsuc, pos_part, ltb_ℤ}
use sdkit.Base.Dict
use sdkit.Base.Dict.{Dict}
use sdkit.Cache.Counter.{parse_int64, increment, format_int64, to_int64}

pub record MemItem : Type 0 where
  pub value : String
  pub expire : Option ℕ

pub record Store : Type 0 where
  pub items : Dict MemItem
  pub stopped : Bool

-- !item.expire.IsZero() && now.After(item.expire)
abbrev pub is_expired : ℕ → MemItem → Bool
is_expired now item = elim item.expire [ none ↦ false | some e ↦ ltb e now ]

-- item.expire.IsZero() || now.Before(item.expire)
abbrev pub is_before : ℕ → MemItem → Bool
is_before now item = elim item.expire [ none ↦ true | some e ↦ ltb now e ]

unfoldable pub new : Store
new = record { items = Dict.empty; stopped = false }

abbrev read : ℕ → String → Store → Option MemItem → Store × String
read now key m none = (m, "")
read now key m (some item) =
    if is_expired now item
    then (record m { items = Dict.delete m.items key }, "")
    else (m, item.value)

unfoldable pub get : ℕ → String → Store → Store × String
get now key m = read now key m (Dict.get m.items key)

-- `if ttl > 0 { expire = time.Now().Add(ttl) }`
abbrev pub expiry : ℕ → ℤ → Option ℕ
expiry now ttl = if ltb_ℤ (pos 0) ttl then some (now + pos_part ttl) else none

unfoldable pub set : ℕ → String → String → ℤ → Store → Store
set now key value ttl m = record m {
  items = Dict.put m.items key (record { value = value; expire = expiry now ttl });
}

-- Del and Delete
unfoldable pub del : List String → Store → Store
del [] m = m
del (key ∷ keys) m = del keys (record m { items = Dict.delete m.items key })

abbrev counted : ℕ → Option MemItem → ℕ
counted now none = 0
counted now (some item) = if is_before now item then 1 else 0

unfoldable pub exists : ℕ → List String → Store → ℕ
exists now [] m = 0
exists now (key ∷ keys) m = counted now (Dict.get m.items key) + exists now keys m

abbrev fresh_count : String → Store → Store × ℤ
fresh_count key m =
    (record m { items = Dict.put m.items key (record { value = "1"; expire = none }) }, pos 1)

abbrev count_up : ℕ → String → Store → Option MemItem → Store × ℤ
count_up now key m none = fresh_count key m
count_up now key m (some item) =
    if is_expired now item
    then fresh_count key m
    else (let n = increment (parse_int64 item.value) in
        (
          record m { items = Dict.put m.items key (record item { value = format_int64 n }) },
          to_int64 n,
        ))

unfoldable pub incr : ℕ → String → Store → Store × ℤ
incr now key m = count_up now key m (Dict.get m.items key)

abbrev remaining : ℕ → Option MemItem → ℤ
remaining now none = negsuc 1
remaining now (some item) = elim item.expire [
  | none ↦ negsuc 0
  | some e ↦ if leb e now then negsuc 1 else pos (e - now)
]

unfoldable pub ttl : ℕ → String → Store → ℤ
ttl now key m = remaining now (Dict.get m.items key)

abbrev with_expiry : ℕ → String → ℤ → Store → Option MemItem → Store
with_expiry now key ttl m none = m
with_expiry now key ttl m (some item) =
    if is_expired now item
    then record m { items = Dict.delete m.items key }
    else record m { items = Dict.put m.items key (record item { expire = expiry now ttl }) }

unfoldable pub expire : ℕ → String → ℤ → Store → Store
expire now key ttl m = with_expiry now key ttl m (Dict.get m.items key)

-- The value of a key that is present for Gets.
abbrev pub live_value : ℕ → Option MemItem → Option String
live_value now none = none
live_value now (some item) = if is_expired now item then none else some item.value

abbrev pub collect : String → Option String → Dict String × List String → Dict String × List String
collect key none (result, missing) = (result, key ∷ missing)
collect key (some value) (result, missing) = (Dict.put result key value, missing)

-- Gets: the values of the keys that are present, and the keys that are not, in their order.
unfoldable pub gets : ℕ → List String → Store → Dict String × List String
gets now [] m = (Dict.empty, [])
gets now (key ∷ keys) m = collect key (live_value now (Dict.get m.items key)) (gets now keys m)

-- Sets, for a map given as the list of its entries.
unfoldable pub sets : ℕ → List (String × String) → ℤ → Store → Store
unfolding set
sets now [] ttl m = m
sets now ((key, value) ∷ values) ttl m = sets now values ttl (set now key value ttl m)

unfoldable pub close : Store → Store
close m = record m { stopped = true }

-- One tick of the cleanup goroutine; after Close it does not run.
unfoldable pub cleanup : ℕ → Store → Store
cleanup now m =
    if m.stopped
    then m
    else record m { items = Dict.retain (λ key item. not (is_expired now item)) m.items }
