-- ===== src/Query/Replies.antt =====
-- services/query_service.py: `_trim_history`, `_parse_router_decision` and `_parse_answer_payload`.
use doccontext.Base.{ℕ, ◌-◌, ◌*◌, Option, none, some, List, [], map, drop, length}
use doccontext.Base.{if◌then◌else◌, Text, codes, same, ◌==◌}
use doccontext.Base.Exn.{Result, ok, throw, ◌>>=◌, attribute_error, overflow_error}
use doccontext.Base.Json.{
  Json, Items, Fields, null, bool, int, float, str, arr, obj, nil, get_field,
}
use doccontext.Base.Runtime.{Runtime, to_str}
use doccontext.Extractors.{lower}
use doccontext.Llm.Client.{Role, user, assistant, Message}

-- `RouterDecision`
pub record RouterDecision (F : Type 0) : Type 0 where
  pub route : Text
  pub confidence : F

-- `AnswerPayload`
pub record AnswerPayload (F : Type 0) : Type 0 where
  pub answer : Text
  pub citations : Items F

-- `pb.HistoryMessage`
pub record HistoryMessage : Type 0 where
  pub role : Text
  pub content : Text

-- `_role_of`
unfoldable pub role_of : Text → Role
unfolding same lower
role_of role = if same (lower role) (codes "assistant") then assistant else user

abbrev pub to_message : HistoryMessage → Message
to_message m = record { role = role_of m.role; content = m.content }

-- `_trim_history`, for the window that `handle` computes as `max(0, …)`. `history[-keep:]` is the
-- whole list if there are fewer than `keep`.
unfoldable pub trim_history : List HistoryMessage → ℕ → List Message
trim_history history window =
    if window == 0
    then []
    else let keep = window * 2 in map to_message (drop (length history - keep) history)

module _ (R : Runtime) where
  -- `max(0.0, min(1.0, conf))`, where `min` and `max` return the first of two that do not compare
  unfoldable pub clamp : R.Float → R.Float
  clamp conf =
      let least = if R.lt conf R.one then conf else R.one in
      if R.lt R.zero least then least else R.zero

  -- `float(obj.get("confidence", 0.0))` with `except (TypeError, ValueError)`
  unfoldable pub confidence_of : Option (Json R.Float) → Result R.Float
  confidence_of none = ok R.zero
  confidence_of (some null) = ok R.zero
  confidence_of (some (bool b)) = ok (if b then R.one else R.zero)
  confidence_of (some (int n)) = elim (R.float_of_int n) [
    | none ↦ throw overflow_error (codes "int too large to convert to float")
    | some x ↦ ok x
  ]
  confidence_of (some (float x)) = ok x
  confidence_of (some (str t)) = elim (R.float_of_text t) [ none ↦ ok R.zero | some x ↦ ok x ]
  confidence_of (some (arr vs)) = ok R.zero
  confidence_of (some (obj fs)) = ok R.zero

  -- `str(obj.get(key, default))`
  abbrev pub text_of : Text → Text → Fields R.Float → Text
  text_of key default fields = elim (get_field key fields) [ none ↦ default | some v ↦ to_str R v ]

  -- `if route not in ("SECTION", "FULL_DOC"): route = "SECTION"`
  unfoldable pub known_route : Text → Text
  known_route route = if same route (codes "FULL_DOC") then route else codes "SECTION"

  abbrev pub no_get : {A : Type 0} → Result A
  no_get = throw attribute_error (codes "the value has no attribute 'get'")

  abbrev pub decision_of : Json R.Float → Result (RouterDecision R.Float)
  decision_of (obj fields) = do
    conf ← confidence_of (get_field (codes "confidence") fields)
    ok (record {
      route = known_route (R.upper (text_of (codes "route") (codes "SECTION") fields));
      confidence = clamp conf;
    })
  decision_of v = no_get

  -- `_parse_router_decision`
  unfoldable pub parse_router_decision : Text → Result (RouterDecision R.Float)
  unfolding confidence_of
  parse_router_decision raw = elim (R.loads raw) [
    | none ↦ ok (record { route = codes "SECTION"; confidence = R.zero })
    | some v ↦ decision_of v
  ]

  -- `obj.get("citations") or []`, or `[]` for what is no list
  unfoldable pub citations_of : Option (Json R.Float) → Items R.Float
  citations_of (some (arr vs)) = vs
  citations_of o = nil

  abbrev payload_of : Json R.Float → Result (AnswerPayload R.Float)
  payload_of (obj fields) = ok (record {
    answer = text_of (codes "answer") (codes "") fields;
    citations = citations_of (get_field (codes "citations") fields);
  })
  payload_of v = no_get

  -- `_parse_answer_payload`
  unfoldable pub parse_answer_payload : Text → Result (AnswerPayload R.Float)
  parse_answer_payload raw = elim (R.loads raw) [
    | none ↦ ok (record { answer = raw; citations = nil })
    | some v ↦ payload_of v
  ]
