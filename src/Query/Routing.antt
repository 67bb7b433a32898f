-- ===== src/Query/Routing.antt =====
-- services/query_service.py: `_parse_router_decision` and `_trim_history` on any input.
use mathlib.Core.List.{append-nil}
use mathlib.Core.Path.{subst}
use doccontext.Base.{ℕ, zero, suc, ◌-◌, ◌*◌, min, ◌≡◌, refl, sym, ap, false, Bool-cases}
use doccontext.Base.{
  Option, none, some, Option-cases, List, [], ◌∷◌, ◌++◌, map, arith, ◌⊎◌, inl, inr, Text, codes,
  same, same_iff,
}
use doccontext.Base.{if◌then◌else◌, ◌==◌, length, length-drop, take, drop}
use doccontext.Base.Exn.{Exn, Result, ok, raise, attribute_error, overflow_error}
use doccontext.Base.Json.{Json, null, bool, int, float, str, arr, obj, get_field}
use doccontext.Base.Runtime.{Runtime, IsFloat}
use doccontext.Services.Converters.{query_route_to_proto}
use doccontext.Query.Replies.{
  RouterDecision, HistoryMessage, to_message, trim_history, clamp, confidence_of, known_route,
  parse_router_decision, decision_of, text_of,
}

take-append-drop {ℓ} : {A : Type ℓ} (n : ℕ) (xs : List A) → take n xs ++ drop n xs ≡ xs
take-append-drop zero xs = refl
take-append-drop (suc n) [] = refl
take-append-drop (suc n) (x ∷ xs) = ap (λ l. x ∷ l) (take-append-drop n xs)

-- The window keeps the newest messages: the history is an older part and the messages that are
-- kept, in their order, and these are two for each turn of the window, or all if there are fewer.
pub trim_history_lem :
    (history : List HistoryMessage) (window : ℕ)
    → (older kept : List HistoryMessage) × (history ≡ older ++ kept)
      × (trim_history history window ≡ map to_message kept)
      × (length kept ≡ min (window * 2) (length history))
unfolding trim_history
trim_history_lem history zero = (history, [], sym (append-nil history), refl, omega arith)
trim_history_lem history (suc window) =
    let some_turn : (suc window == 0) ≡ false = ground arith in
    let skip : ℕ = length history - suc window * 2 in
    (
      take skip history,
      drop skip history,
      sym (take-append-drop skip history),
      rw some_turn refl,
      omega (arith, length-drop skip history),
    )

module _ (R : Runtime) (L : IsFloat R) where
  -- The number is not below 0.0 and not above 1.0.
  abbrev pub IsConfidence : R.Float → Type 0
  IsConfidence x = (R.lt x R.zero ≡ false) × (R.lt R.one x ≡ false)

  clamp-IsConfidence : (conf : R.Float) → IsConfidence (clamp R conf)
  unfolding clamp
  clamp-IsConfidence conf = ground (
    arith,
    L.lt_asymm conf R.one,
    L.lt_asymm R.one R.one,
    L.lt_asymm R.zero R.zero,
    L.lt_asymm R.zero conf,
    L.lt_asymm R.zero R.one,
    L.zero_lt_one,
  )

  zero-IsConfidence : IsConfidence R.zero
  zero-IsConfidence =
      ground (arith, L.lt_asymm R.zero R.zero, L.lt_asymm R.zero R.one, L.zero_lt_one)

  -- The route has a number in the proto, and the confidence is in range.
  abbrev pub IsDecision : RouterDecision R.Float → Type 0
  IsDecision d =
      ((query_route_to_proto R d.route ≡ ok 1) ⊎ (query_route_to_proto R d.route ≡ ok 2))
      × IsConfidence d.confidence

  known_route_lem :
      (route : Text)
      → (query_route_to_proto R (known_route R route) ≡ ok 1)
        ⊎ (query_route_to_proto R (known_route R route) ≡ ok 2)
  unfolding known_route query_route_to_proto same
  known_route_lem route = elim (Bool-cases (same route (codes "FULL_DOC"))) [
    | inl full ↦ inr (
        rw full (
          subst (λ r. query_route_to_proto R r ≡ ok 2)
            (sym ((same_iff route (codes "FULL_DOC")).0 full)) refl))
    | inr section ↦ inl (rw section refl)
  ]

  abbrev too_large : Exn
  too_large = record { kind = overflow_error; message = codes "int too large to convert to float" }

  confidence_of_cases :
      (v : Option (Json R.Float))
      → ((conf : R.Float) × (confidence_of R v ≡ ok conf))
        ⊎ ((e : Exn) × (confidence_of R v ≡ raise e) × (e.kind ≡ overflow_error))
  unfolding confidence_of
  confidence_of_cases none = inl (R.zero, refl)
  confidence_of_cases (some null) = inl (R.zero, refl)
  confidence_of_cases (some (bool b)) = inl (if b then R.one else R.zero, refl)
  confidence_of_cases (some (int n)) = elim (Option-cases (R.float_of_int n)) [
    | inl large ↦ inr (too_large, rw (large, confidence_of) refl, refl)
    | inr (x, e) ↦ inl (x, rw (e, confidence_of) refl)
  ]
  confidence_of_cases (some (float x)) = inl (x, refl)
  confidence_of_cases (some (str t)) = elim (Option-cases (R.float_of_text t)) [
    | inl bad ↦ inl (R.zero, rw (bad, confidence_of) refl)
    | inr (x, e) ↦ inl (x, rw (e, confidence_of) refl)
  ]
  confidence_of_cases (some (arr vs)) = inl (R.zero, refl)
  confidence_of_cases (some (obj fs)) = inl (R.zero, refl)

  -- A decision, or the exception for a value that is no object or whose number is too large.
  abbrev pub Decides : Result (RouterDecision R.Float) → Type 0
  Decides r =
      ((d : RouterDecision R.Float) × (r ≡ ok d) × IsDecision d)
      ⊎ ((e : Exn) × (r ≡ raise e) × ((e.kind ≡ attribute_error) ⊎ (e.kind ≡ overflow_error)))

  decision_of-Decides : (v : Json R.Float) → Decides (decision_of R v)
  decision_of-Decides (obj fields) =
      elim (confidence_of_cases (get_field (codes "confidence") fields)) [
        | inl (conf, c) ↦
            let route : Text = R.upper (text_of R (codes "route") (codes "SECTION") fields) in
            rw c (
              inl (
                record { route = known_route R route; confidence = clamp R conf },
                refl,
                (known_route_lem route, clamp-IsConfidence conf),
              ))
        | inr (exc, c, kind) ↦ rw c (inr (exc, refl, inr kind))
      ]
  decision_of-Decides null = inr (_, refl, inl refl)
  decision_of-Decides (bool b) = inr (_, refl, inl refl)
  decision_of-Decides (int n) = inr (_, refl, inl refl)
  decision_of-Decides (float x) = inr (_, refl, inl refl)
  decision_of-Decides (str t) = inr (_, refl, inl refl)
  decision_of-Decides (arr vs) = inr (_, refl, inl refl)

  -- Whatever the router's model replies, the parser returns a decision whose route has a number in
  -- the proto and whose confidence is not below 0.0 and not above 1.0, or it raises the error of a
  -- JSON value that is not an object or of an integer that is too large for a float.
  pub parse_router_decision-Decides : (raw : Text) → Decides (parse_router_decision R raw)
  unfolding parse_router_decision query_route_to_proto same
  parse_router_decision-Decides raw = elim (Option-cases (R.loads raw)) [
    | inl bad ↦
        rw (bad, parse_router_decision)
          (inl (
            record { route = codes "SECTION"; confidence = R.zero },
            refl,
            (inl refl, zero-IsConfidence),
          ))
    | inr (v, e) ↦ rw (e, parse_router_decision) (decision_of-Decides v)
  ]
