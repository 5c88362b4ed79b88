-- ===== src/Cache/Expiry.antt =====
-- Counting with `Incr`, and the readers of an expiry time against one another.
use sdkit.Base.{
  ℕ, suc, ◌+◌, ◌^◌, ◌<◌, ◌≡◌, ◌≢◌, ◌↔◌, refl, sym, ap, ◌∙◌, inl, inr, String, none, some, List, [],
  ◌∷◌, arith, str_eq_refl, Option-cases, length,
}
use sdkit.Base.Int.{pos, negsuc}
use sdkit.Base.Dict
use sdkit.Base.Dict.{Dict, get-put, get-delete}
use sdkit.Cache.Counter.{increment, prepend_digits, format_int64, parse_int64-format_int64}
use sdkit.Cache.{MemItem, Store, expiry, get, set, exists, ttl, incr}
use sdkit.Cache.View.{view}

abbrev counted_as : String → MemItem
counted_as value = record { value = value; expire = none }

-- An entry that lives at every time.
abbrev Lasting : Store → String → String → Type 0
Lasting m key value = Dict.get m.items key ≡ some (record { value = value; expire = none })

first_incr :
    (now : ℕ) (key : String) (m : Store)
    → view m now key ≡ none
    → Lasting (incr now key m).0 key "1"
unfolding incr
first_incr now key m h =
    ground (arith, get-put m.items key key (record { value = "1"; expire = none }), str_eq_refl key)

increment_small : (n : ℕ) → n < 2 ^ 63 → increment n ≡ n + 1
unfolding increment
increment_small n h = omega arith

next_incr :
    (now : ℕ) (key : String) (m : Store) (n : ℕ)
    → n < 2 ^ 63
    → Lasting m key (format_int64 n)
    → Lasting (incr now key m).0 key (format_int64 (n + 1))
unfolding incr
next_incr now key m n small h =
    let k = increment_small n small in
    ground (
      arith,
      h,
      parse_int64-format_int64 n small,
      k,
      get-put m.items key key (record { value = format_int64 (increment n); expire = none }),
      str_eq_refl key,
    )

one : format_int64 1 ≡ "1"
unfolding format_int64 prepend_digits
one = refl

-- `Incr` called n times, whatever the times.
pub incr_each : List ℕ → String → Store → Store
incr_each [] key m = m
incr_each (now ∷ times) key m = incr_each times key (incr now key m).0

Lasting-each :
    (times : List ℕ) (key : String) (m : Store) (n : ℕ)
    → n + length times < 2 ^ 63
    → Lasting m key (format_int64 n)
    → Lasting (incr_each times key m) key (format_int64 (n + length times))
unfolding incr_each
Lasting-each [] key m n small h = rw (ap format_int64 (let e : n + 0 ≡ n = omega arith in e)) h
Lasting-each (now ∷ times) key m n small h =
    let rest =
      Lasting-each times key (incr now key m).0 (n + 1) (omega arith)
        (next_incr now key m n (omega arith) h) in
    rw (let e : n + 1 + length times ≡ n + suc (length times) = omega arith in e) at rest

-- A key that is not in view counts the calls of Incr, each at any time, and never expires; the
-- number is written in decimal, and is right below 2 ^ 63.
pub view-incr_each :
    (now : ℕ) (times : List ℕ) (key : String) (m : Store) (t : ℕ)
    → view m now key ≡ none
    → length times + 1 < 2 ^ 63
    → view (incr_each (now ∷ times) key m) t key ≡ some (format_int64 (length times + 1))
unfolding incr_each
view-incr_each now times key m t gone small =
    let first = first_incr now key m gone in
    let last =
      Lasting-each times key (incr now key m).0 1 (omega arith)
        (first ∙ ap (λ (s : String). some (counted_as s)) (sym one)) in
    rw last (ap (λ (n : ℕ). some (format_int64 n)) (omega arith))

-- At the very end of a TTL the readers disagree: Get still returns the value, Exists does not count
-- the key, and TTL answers that there is none.
pub end_of_ttl :
    (now : ℕ) (key value : String) (d : ℕ) (m : Store)
    → 0 < d
    → ((get (now + d) key (set now key value (pos d) m)).1 ≡ value)
      × (exists (now + d) (key ∷ []) (set now key value (pos d) m) ≡ 0)
      × (ttl (now + d) key (set now key value (pos d) m) ≡ negsuc 1)
unfolding get set exists ttl
end_of_ttl now key value d m h =
    let put_there =
      get-put m.items key key (record { value = value; expire = expiry now (pos d) }) in
    (
      ground (arith, put_there, str_eq_refl key),
      ground (arith, put_there, str_eq_refl key),
      ground (arith, put_there, str_eq_refl key),
    )

-- At any time but the very end of a TTL, a key counts for Exists exactly when Get finds it, and TTL
-- is -2 exactly when Get does not.
pub exists-view :
    (now : ℕ) (key : String) (m : Store)
    → ((item : MemItem) → Dict.get m.items key ≡ some item → item.expire ≢ some now)
    → (exists now (key ∷ []) m ≡ (elim (view m now key) [ none ↦ 0 | some v ↦ 1 ]))
      × ((ttl now key m ≡ negsuc 1) ↔ (view m now key ≡ none))
unfolding exists ttl
exists-view now key m h = elim (Option-cases (Dict.get m.items key)) [
  | inl absent ↦ (ground arith, (λ e. ground arith, λ e. ground arith))
  | inr (item, there) ↦ elim (Option-cases item.expire) [
    | inl forever ↦ (ground arith, (λ e. ground arith, λ e. ground arith))
    | inr (e, ends) ↦
        let differs : e ≢ now = λ q. h item there (ends ∙ ap some q) in
        (ground arith, (λ x. ground arith, λ x. ground arith))
  ]
]
