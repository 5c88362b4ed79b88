-- ===== src/Payment/Adapter/Filed.antt =====
-- The registry files each adapter under its own name, once.
use sdkit.Base.{
  ◌≡◌, refl, sym, ap, subst, ◌∙◌, String, Bool, true, false, Option, none, some, arith, is_blank,
  str_eq, eq_iff, if◌then◌else◌, Bool-cases, inl, inr,
}
use sdkit.Base.Dict
use sdkit.Base.Dict.{Dict, get-put, get-empty}
use sdkit.Base.Result.{Result, err}
use sdkit.Payment.Error.{PaymentError}
use sdkit.Payment.Adapter.{ProviderAdapter, Registry, enter, register}

module _ {W : Type 0} where
  abbrev name_of : Option (ProviderAdapter W) → String
  name_of none = ""
  name_of (some a) = a.name

  -- Every adapter stands under its name, and no name is empty.
  abbrev pub IsFiled : Registry W → Type 0
  IsFiled r =
      (key : String) (a : ProviderAdapter W)
      → Dict.get r.adapters key ≡ some a
      → (a.name ≡ key) × (is_blank key ≡ false)

  overwrite :
      (m : Dict (ProviderAdapter W)) (new key : String) (b : ProviderAdapter W)
      → str_eq new key ≡ true
      → Dict.get (Dict.put m new b) key ≡ some b
  overwrite m new key b e = ground (arith, get-put m new key b)

  put-IsFiled :
      (r : Registry W) (b : ProviderAdapter W)
      → IsFiled r
      → is_blank b.name ≡ false
      → IsFiled (record { adapters = Dict.put r.adapters b.name b })
  put-IsFiled r b f n key a h = elim (Bool-cases (str_eq b.name key)) [
    | inl e ↦
        let same = (eq_iff b.name key).0 e in
        let name = ap name_of (sym h ∙ overwrite r.adapters b.name key b e) in
        (name ∙ same, subst (λ k. is_blank k ≡ false) same n)
    | inr e ↦ f key a (ground (arith, get-put r.adapters b.name key b))
  ]

  none-some : {a : ProviderAdapter W} → none ≡ some a → ⊥
  none-some h = cc

  get-put_new :
      (m : Dict (ProviderAdapter W)) (b : ProviderAdapter W) (provider : String)
      (a : ProviderAdapter W)
      → Dict.get m b.name ≡ none
      → Dict.get m provider ≡ some a
      → Dict.get (Dict.put m b.name b) provider ≡ some a
  get-put_new m b provider a free h = elim (Bool-cases (str_eq b.name provider)) [
    | inl e ↦
        let taken = subst (λ k. Dict.get m k ≡ none) ((eq_iff b.name provider).0 e) free in
        elim (none-some (sym taken ∙ h)) [ ]
    | inr e ↦ ground (arith, get-put m b.name provider b)
  ]

  abbrev pub Keeps : Registry W → Registry W → Type 0
  Keeps r q =
      (provider : String) (a : ProviderAdapter W)
      → Dict.get r.adapters provider ≡ some a
      → Dict.get q.adapters provider ≡ some a

  abbrev IsKept : Registry W → Registry W → Type 0
  IsKept r q = IsFiled q × Keeps r q

  enter-IsKept :
      (r : Registry W) (b : ProviderAdapter W) (o : Option (ProviderAdapter W))
      → Dict.get r.adapters b.name ≡ o
      → IsFiled r
      → is_blank b.name ≡ false
      → IsKept r (enter r b o).1
  enter-IsKept r b none free f n =
      (put-IsFiled r b f n, λ provider a h. get-put_new r.adapters b provider a free h)
  enter-IsKept r b (some old) free f n = (f, λ provider a h. h)

  unless-IsKept :
      (blank : Bool) (r : Registry W) (e : PaymentError)
      (p : Result PaymentError (Unit {0}) × Registry W)
      → IsFiled r
      → (blank ≡ false → IsKept r p.1)
      → IsKept r (if blank then (err e, r) else p).1
  unless-IsKept true r e p f h = (f, λ provider a g. g)
  unless-IsKept false r e p f h = h refl

  -- Registering keeps every adapter under its own name, and replaces none, whatever it is given.
  pub register-IsFiled :
      (r : Registry W) (o : Option (ProviderAdapter W))
      → IsFiled r
      → IsFiled (register r o).1 × Keeps r (register r o).1
  unfolding register
  register-IsFiled r none f = (f, λ provider a h. h)
  register-IsFiled r (some b) f =
      unless-IsKept (is_blank b.name) r _ (enter r b (Dict.get r.adapters b.name)) f
        (enter-IsKept r b (Dict.get r.adapters b.name) refl f)
