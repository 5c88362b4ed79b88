-- ===== src/Realtime/Index.antt =====
-- A `map[string]map[string]struct{}` as pkg/realtime/memory/registry.go uses it: an outer key has a set
-- of inner keys, which is dropped when it becomes empty.
use sdkit.Base.{
  ◌≡◌, refl, String, Bool, false, not, ◌&&◌, ◌||◌, Option, none, some, List, [], ◌∷◌, arith, eq_iff,
  str_eq, has_name, if◌then◌else◌,
}
use sdkit.Base.Dict
use sdkit.Base.Dict.{Dict, is_given}

abbrev pub Keys : Type 0
Keys = Dict (Unit {0})

abbrev pub Index : Type 0
Index = Dict Keys

abbrev pub or_empty : Option Keys → Keys
or_empty none = Dict.empty
or_empty (some s) = s

abbrev pub has_key : Option Keys → String → Bool
has_key none b = false
has_key (some s) b = is_given (Dict.get s b)

-- Whether the set of `a` has `b`.
unfoldable pub linked : Index → String → String → Bool
linked m a b = has_key (Dict.get m a) b

-- if m[a] == nil { m[a] = make(...) }; m[a][b] = struct{}{}
unfoldable pub link : Index → String → String → Index
link m a b = Dict.put m a (Dict.put (or_empty (Dict.get m a)) b tt)

abbrev pub without : Index → String → String → Option Keys → Index
without m a b none = m
without m a b (some s) =
    let s' = Dict.delete s b in if Dict.is_empty s' then Dict.delete m a else Dict.put m a s'

-- delete(m[a], b); if len(m[a]) == 0 { delete(m, a) }
unfoldable pub unlink : Index → String → String → Index
unlink m a b = without m a b (Dict.get m a)

-- for a := range as { delete(m[a], b); if len(m[a]) == 0 { delete(m, a) } }
unfoldable pub unlink_all : Index → List String → String → Index
unfolding unlink
unlink_all m [] b = m
unlink_all m (a ∷ as') b = unlink_all (unlink m a b) as' b

-- The keys of the set of `a`.
unfoldable pub inner_keys : Index → String → List String
inner_keys m a = Dict.keys (or_empty (Dict.get m a))

pub linked-empty : (a b : String) → linked Dict.empty a b ≡ false
unfolding linked
linked-empty a b = rw (linked, Dict.get-empty a) refl

pub linked-link :
    (m : Index) (a b x y : String)
    → linked (link m a b) x y ≡ ((str_eq a x && str_eq b y) || linked m x y)
unfolding linked link
linked-link m a b x y = ground (
  arith,
  eq_iff a x,
  eq_iff b y,
  Dict.get-put m a x (Dict.put (or_empty (Dict.get m a)) b tt),
  Dict.get-put (or_empty (Dict.get m a)) b y tt,
  Dict.get-empty {V = Unit {0}} y,
)

linked-without :
    (m : Index) (a b x y : String) (o : Option Keys)
    → Dict.get m a ≡ o
    → linked (without m a b o) x y ≡ (linked m x y && not (str_eq a x && str_eq b y))
unfolding linked
linked-without m a b x y none h = ground (arith, eq_iff a x)
linked-without m a b x y (some s) h = ground (
  arith,
  eq_iff a x,
  Dict.get-delete s b y,
  Dict.get-delete m a x,
  Dict.get-put m a x (Dict.delete s b),
  Dict.get-is_empty (Dict.delete s b) y,
)

pub linked-unlink :
    (m : Index) (a b x y : String)
    → linked (unlink m a b) x y ≡ (linked m x y && not (str_eq a x && str_eq b y))
unfolding unlink
linked-unlink m a b x y = linked-without m a b x y (Dict.get m a) refl

pub linked-delete :
    (m : Index) (a x y : String) → linked (Dict.delete m a) x y ≡ (linked m x y && not (str_eq a x))
unfolding linked
linked-delete m a x y = ground (arith, Dict.get-delete m a x)

pub linked-unlink_all :
    (m : Index) (as' : List String) (b x y : String)
    → linked (unlink_all m as' b) x y ≡ (linked m x y && not (has_name x as' && str_eq b y))
unfolding unlink_all has_name
linked-unlink_all m [] b x y = ground arith
linked-unlink_all m (a ∷ as') b x y =
    ground (arith, linked-unlink_all (unlink m a b) as' b x y, linked-unlink m a b x y)

has_name-keys_of :
    (o : Option Keys) (b : String) → has_name b (Dict.keys (or_empty o)) ≡ has_key o b
has_name-keys_of none b =
    rw (Dict.has_name-keys (Dict.empty {V = Unit {0}}) b, Dict.get-empty {V = Unit {0}} b) refl
has_name-keys_of (some s) b = Dict.has_name-keys s b

pub has_name-inner_keys : (m : Index) (a b : String) → has_name b (inner_keys m a) ≡ linked m a b
unfolding inner_keys linked
has_name-inner_keys m a b = has_name-keys_of (Dict.get m a) b
