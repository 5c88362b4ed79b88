-- ===== src/Payment/Channels/Bound.antt =====
-- What a selector that was built from a list of bindings answers.
use sdkit.Base.{
  ◌≡◌, refl, sym, subst, String, false, not, ◌&&◌, Option, none, some, List, [], ◌∷◌, arith, All,
  is_blank, str_eq, str_eq_refl, eq_iff, if◌then◌else◌, Bool-cases, inl, inr,
}
use sdkit.Base.Dict
use sdkit.Base.Dict.{Dict, get-put, get-empty}
use sdkit.Base.Effect.{Holds, Holds-eq-ok, Holds-imp}
use sdkit.Base.Result.{ok}
use sdkit.Payment.Error.{Context, invalid_request, unsupported_provider, unsupported_channel}
use sdkit.Payment.Error.Checks.{Holds-reject_if, Holds-after, Holds-then, named_kept}
use sdkit.Payment.Channels.{
  ChannelSelectionRequest, ChannelSelection, ChannelBinding, StaticChannelSelector, selection_of,
  normalize_channel_binding, place, bind, bind_all, build_channel_binding_map, answer, makes_new,
  check_context, select_payment_channel,
}

-- What `m` has for every key that `out` had, it has still.
abbrev Keeps : Dict ChannelSelection → Dict ChannelSelection → Type 0
Keeps out m =
    (key : String) (s : ChannelSelection) → Dict.get out key ≡ some s → Dict.get m key ≡ some s

-- `m` is `out` with one binding more, under a key that was free.
abbrev pub IsBound : Dict ChannelSelection → ChannelBinding → Dict ChannelSelection → Type 0
IsBound out b m =
    (Dict.get out b.key ≡ none)
    × ((key : String)
        → Dict.get m key ≡ (if str_eq b.key key then some (selection_of b) else Dict.get out key))

normalize_channel_binding-eq :
    (b : ChannelBinding) → Holds (λ p. p ≡ (b.key, selection_of b)) (normalize_channel_binding b)
unfolding normalize_channel_binding
normalize_channel_binding-eq b =
    let P = λ (p : String × ChannelSelection). p ≡ (b.key, selection_of b) in
    Holds-reject_if P (is_blank b.key) invalid_request _ (λ _.
      Holds-reject_if P (is_blank b.provider) unsupported_provider _ (λ _.
        Holds-reject_if P (is_blank b.channel) unsupported_channel (ok (b.key, selection_of b))
          (λ _. refl)))

place-IsBound :
    (out : Dict ChannelSelection) (b : ChannelBinding) (o : Option ChannelSelection)
    → Dict.get out b.key ≡ o
    → Holds (IsBound out b) (place out (b.key, selection_of b) o)
place-IsBound out b none h = (h, λ key. get-put out b.key key (selection_of b))
place-IsBound out b (some old) h = tt

bind-IsBound :
    (out : Dict ChannelSelection) (b : ChannelBinding) → Holds (IsBound out b) (bind out b)
unfolding bind
bind-IsBound out b =
    Holds-after _ (IsBound out b) (normalize_channel_binding b)
      (λ p. place out p (Dict.get out p.0)) (normalize_channel_binding-eq b)
      (λ p e.
        subst (λ p. Holds (IsBound out b) (place out p (Dict.get out p.0))) (sym e)
          (place-IsBound out b (Dict.get out b.key) refl))

taken_twice :
    (out : Dict ChannelSelection) {j key : String} {s : ChannelSelection}
    → Dict.get out j ≡ none
    → Dict.get out key ≡ some s
    → j ≡ key
    → ⊥
taken_twice out {j} free h e = let twice = subst (λ k. Dict.get out k ≡ none) e free in cc

IsBound-Keeps :
    (out : Dict ChannelSelection) (b : ChannelBinding) (m : Dict ChannelSelection)
    → IsBound out b m
    → Keeps out m
IsBound-Keeps out b m (free, bound) key s h = elim (Bool-cases (str_eq b.key key)) [
  | inl e ↦ elim (taken_twice out free h ((eq_iff b.key key).0 e)) [ ]
  | inr e ↦ ground (arith, bound key)
]

IsBound-own :
    (out : Dict ChannelSelection) (b : ChannelBinding) (m : Dict ChannelSelection)
    → IsBound out b m
    → Dict.get m b.key ≡ some (selection_of b)
IsBound-own out b m (free, bound) = ground (arith, bound b.key, str_eq_refl b.key)

abbrev pub IsAnswered : Dict ChannelSelection → ChannelBinding → Type 0
IsAnswered m b = Dict.get m b.key ≡ some (selection_of b)

bind_all-IsAnswered :
    (out : Dict ChannelSelection) (bindings : List ChannelBinding)
    → Holds (λ m. Keeps out m × All (IsAnswered m) bindings) (bind_all out bindings)
unfolding bind_all
bind_all-IsAnswered out [] = ((λ key s h. h), tt)
bind_all-IsAnswered out (b ∷ bindings) =
    let P = λ (m : Dict ChannelSelection). Keeps out m × All (IsAnswered m) (b ∷ bindings) in
    Holds-after (IsBound out b) P (bind out b) (λ out'. bind_all out' bindings) (bind-IsBound out b)
      (λ out' bound.
        Holds-imp _ P (bind_all out' bindings) (bind_all-IsAnswered out' bindings) (λ m all. (
          (λ key s h. all.0 key s (IsBound-Keeps out b out' bound key s h)),
          (all.0 b.key (selection_of b) (IsBound-own out b out' bound), all.1),
        )))

-- If the map of the bindings is built, it has the selection of each binding under its key.
pub build_channel_binding_map-IsAnswered :
    (bindings : List ChannelBinding) (m : Dict ChannelSelection)
    → build_channel_binding_map bindings ≡ ok m
    → All (IsAnswered m) bindings
unfolding build_channel_binding_map
build_channel_binding_map-IsAnswered bindings m h =
    (Holds-eq-ok (λ m. Keeps Dict.empty m × All (IsAnswered m) bindings) _ m
      (bind_all-IsAnswered Dict.empty bindings) h).1

-- A selection answers a request when it is the one bound to its key, agrees with the provider and
-- the channel that the request names, and is open for what the request does.
pub record Answers (s : StaticChannelSelector) (req : ChannelSelectionRequest)
    (sel : ChannelSelection) : Type 0 where
  pub bound : Dict.get s.bindings req.merchant_key ≡ some sel
  pub provider : is_blank req.provider ≡ false → sel.provider ≡ req.provider
  pub channel : is_blank req.channel ≡ false → sel.channel ≡ req.channel
  pub enabled : (sel.disabled_for_new && makes_new req.operation) ≡ false

answer-Answers :
    (s : StaticChannelSelector) (req : ChannelSelectionRequest) (o : Option ChannelSelection)
    → Dict.get s.bindings req.merchant_key ≡ o
    → Holds (Answers s req) (answer req o)
answer-Answers s req none h = tt
answer-Answers s req (some sel) h =
    Holds-reject_if (Answers s req)
      (not (is_blank req.provider) && not (str_eq req.provider sel.provider)) _ _
      (λ hp.
        Holds-reject_if (Answers s req)
          (not (is_blank req.channel) && not (str_eq req.channel sel.channel)) _ _
          (λ hc.
            Holds-reject_if (Answers s req) (sel.disabled_for_new && makes_new req.operation) _ _
              (λ he. record {
                bound = h;
                provider = named_kept req.provider sel.provider hp;
                channel = named_kept req.channel sel.channel hc;
                enabled = he;
              })))

-- The selector only gives out selections that answer the request.
pub select_payment_channel-Answers :
    (s : StaticChannelSelector) (ctx : Context) (req : ChannelSelectionRequest)
    (sel : ChannelSelection)
    → select_payment_channel s ctx req ≡ ok sel
    → Answers s req sel
unfolding select_payment_channel
select_payment_channel-Answers s ctx req sel h =
    Holds-eq-ok (Answers s req) _ sel
      (Holds-then (Answers s req) (check_context ctx) _ (
        Holds-reject_if (Answers s req) (is_blank req.merchant_key) invalid_request _
          (λ _. answer-Answers s req (Dict.get s.bindings req.merchant_key) refl)))
      h
