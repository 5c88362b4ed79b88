-- ===== src/Cache/View.antt =====
-- What a reader of the cache sees, as a function of the time: the refinement of a plain map.
use sdkit.Base.{
  ℕ, ◌+◌, ◌≤◌, ◌≡◌, inl, inr, String, true, false, not, ◌&&◌, Option, none, some, List, [], ◌∷◌,
  arith, ltb, str_eq, eq_iff, if◌then◌else◌, Option-cases, has_name, has_name-nil, has_name-cons,
}
use sdkit.Base.Int.{ℤ, pos, ltb_ℤ, pos_part}
use sdkit.Base.Dict
use sdkit.Base.Dict.{Dict, dict_laws, get-put, get-delete, get-retain, get-empty}
use sdkit.Cache.{
  MemItem, Store, is_expired, live_value, expiry, get, set, del, expire, gets, cleanup,
}

-- The value of `key` at the time `t`, as Get and Gets read it.
abbrev pub view : Store → ℕ → String → Option String
view m t key = live_value t (Dict.get m.items key)

abbrev pub or_empty : Option String → String
or_empty none = ""
or_empty (some v) = v

-- An entry that has expired stays so.
later_live : (s t : ℕ) (o : Option MemItem) → s ≤ t → live_value s o ≡ none → live_value t o ≡ none
later_live s t o h e = ground arith

module _ (now : ℕ) (m : Store) where
  -- Get returns what is in view, or "", and changes nothing that is in view now or later.
  pub get-view :
      (key : String)
      → ((get now key m).1 ≡ or_empty (view m now key))
        × ((t : ℕ) (j : String) → now ≤ t → view (get now key m).0 t j ≡ view m t j)
  unfolding get
  get-view key = (ground arith, λ t j h. ground (arith, get-delete m.items key j, eq_iff key j))

  -- After Set a key is in view until its TTL has passed, and forever without one; no other key
  -- changes.
  pub view-set :
      (key j value : String) (ttl : ℤ) (t : ℕ)
      → view (set now key value ttl m) t j ≡ (
          if str_eq key j
          then (if ltb_ℤ (pos 0) ttl && ltb (now + pos_part ttl) t then none else some value)
          else view m t j)
  unfolding set
  view-set key j value ttl t = ground (
    arith,
    get-put m.items key j (record { value = value; expire = expiry now ttl }),
    eq_iff key j,
  )

  -- A cleanup takes out only what is no longer in view.
  pub view-cleanup : (t : ℕ) (j : String) → now ≤ t → view (cleanup now m) t j ≡ view m t j
  unfolding cleanup
  view-cleanup t j h =
      ground
        (arith, get-retain (λ (key : String) (item : MemItem). not (is_expired now item)) m.items j)

  -- Expire gives a key that is in view a new end, or none; it does nothing else that is in view.
  pub view-expire :
      (key j : String) (ttl : ℤ) (t : ℕ)
      → now ≤ t
      → view (expire now key ttl m) t j ≡ (
          if str_eq key j
          then (if ltb_ℤ (pos 0) ttl && ltb (now + pos_part ttl) t then none else view m now key)
          else view m t j)
  unfolding expire
  view-expire key j ttl t h = elim (Option-cases (Dict.get m.items key)) [
    | inl absent ↦ rw absent (ground (arith, eq_iff key j))
    | inr (item, there) ↦ ground (
      arith,
      get-put m.items key j (record item { expire = expiry now ttl }),
      get-delete m.items key j,
      eq_iff key j,
    )
  ]

-- Del takes out exactly the keys that it is given.
pub view-del :
    (keys : List String) (m : Store) (t : ℕ) (j : String)
    → view (del keys m) t j ≡ (if has_name j keys then none else view m t j)
unfolding del
view-del [] m t j = ground (arith, has_name-nil j)
view-del (key ∷ keys) m t j = ground (
  arith,
  view-del keys (record m { items = Dict.delete m.items key }) t j,
  get-delete m.items key j,
  has_name-cons j key keys,
)

-- Gets returns the value of each key that is in view, and lists the others as missing.
pub gets-view :
    (now : ℕ) (keys : List String) (m : Store) (j : String)
    → (Dict.get (gets now keys m).0 j ≡ (if has_name j keys then view m now j else none))
      × (has_name j (gets now keys m).1
          ≡ (has_name j keys && (elim (view m now j) [ none ↦ true | some v ↦ false ])))
unfolding gets
gets-view now [] m j =
    (ground (arith, has_name-nil j, get-empty {V = String} j), ground (arith, has_name-nil j))
gets-view now (key ∷ keys) m j = elim (Option-cases (view m now key)) [
  | inl absent ↦ ground (
    arith,
    gets-view now keys m j,
    has_name-cons j key keys,
    eq_iff key j,
    has_name-cons j key (gets now keys m).1,
  )
  | inr (value, there) ↦ ground (
    arith,
    gets-view now keys m j,
    has_name-cons j key keys,
    eq_iff key j,
    get-put (gets now keys m).0 key j value,
  )
]
