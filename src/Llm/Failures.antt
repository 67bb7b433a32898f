-- ===== src/Llm/Failures.antt =====
-- llm/openrouter.py: the replies that `OpenRouterClient.complete` refuses, and `aclose`.
use doccontext.Base.{◌≡◌, refl, ◌≤◌, true, false, Option, none, some, List, arith}
use doccontext.Base.{Text, codes, leb, ◌⊎◌, inl, inr, Bool-cases}
use doccontext.Base.Exn.{Result, ok, raise, open_router_error}
use doccontext.Base.Json.{Json, null, arr, obj, Items, cons, Fields, end, get_field}
use doccontext.Base.Runtime.{Runtime, truthy}
use doccontext.Llm.Client.{Message}
use doccontext.Llm.OpenRouter.{
  HttpResponse, Posted, responded, http_error, other_error, HttpClient, OpenRouterClient,
  Completion, request_body, get_or, first_choice, content_of, read_choices, read_data,
  read_response, read_posted, complete, aclose,
}
use doccontext.Llm.Bodies.{field_or}

module _ (R : Runtime) where
  -- The outcomes of a request that the class `OpenRouterError` is for: no response, a status from
  -- 400 on, a body that is no JSON, and an object without choices or without a content.
  pub data IsFaulty : Posted R.Float → Type 0 where
    unreachable : (exc : Text) → IsFaulty (http_error exc)
    refused : (resp : HttpResponse R.Float) → 400 ≤ resp.status_code → IsFaulty (responded resp)
    not_json :
        (resp : HttpResponse R.Float) (exc : Text) → resp.json ≡ inl exc → IsFaulty (responded resp)
    no_choices :
        (resp : HttpResponse R.Float) (body : Fields R.Float)
        → resp.json ≡ inr (obj body)
        → truthy R (field_or R body (codes "choices") null) ≡ false
        → IsFaulty (responded resp)
    no_message :
        (resp : HttpResponse R.Float) (body choice : Fields R.Float) (others : Items R.Float)
        → resp.json ≡ inr (obj body)
        → get_field (codes "choices") body ≡ some (arr (cons (obj choice) others))
        → get_field (codes "message") choice ≡ none
        → IsFaulty (responded resp)
    no_content :
        (resp : HttpResponse R.Float) (body choice message : Fields R.Float)
        (others : Items R.Float)
        → resp.json ≡ inr (obj body)
        → get_field (codes "choices") body ≡ some (arr (cons (obj choice) others))
        → get_field (codes "message") choice ≡ some (obj message)
        → field_or R message (codes "content") null ≡ null
        → IsFaulty (responded resp)

  -- It raised `OpenRouterError`.
  abbrev pub IsOpenRouterError : Result (Completion R) → Type 0
  IsOpenRouterError (ok r) = ⊥
  IsOpenRouterError (raise e) = e.kind ≡ open_router_error

  read_response-high :
      (model : Text) (resp : HttpResponse R.Float)
      → leb 400 resp.status_code ≡ true
      → IsOpenRouterError (read_response R model resp)
  unfolding read_response
  read_response-high model resp high = rw high refl

  read_response-low :
      (model : Text) (resp : HttpResponse R.Float) (payload : Json R.Float)
      → resp.json ≡ inr payload
      → IsOpenRouterError (read_data R model payload)
      → IsOpenRouterError (read_response R model resp)
  unfolding read_response
  read_response-low model resp payload e h = elim (Bool-cases (leb 400 resp.status_code)) [
    | inl high ↦ rw high refl
    | inr low ↦ rw (low, e) h
  ]

  not_json_raises :
      (model : Text) (resp : HttpResponse R.Float) (exc : Text)
      → resp.json ≡ inl exc
      → IsOpenRouterError (read_response R model resp)
  unfolding read_response
  not_json_raises model resp exc e = elim (Bool-cases (leb 400 resp.status_code)) [
    | inl high ↦ rw high refl
    | inr low ↦ rw (low, e) refl
  ]

  read_data-no_choices :
      (model : Text) (body : Fields R.Float)
      → truthy R (field_or R body (codes "choices") null) ≡ false
      → IsOpenRouterError (read_data R model (obj body))
  unfolding read_data get_or read_choices truthy
  read_data-no_choices model body h = rw h refl

  read_data-no_content :
      (model : Text) (body choice message : Fields R.Float) (others : Items R.Float)
      → get_field (codes "choices") body ≡ some (arr (cons (obj choice) others))
      → field_or R choice (codes "message") (obj end) ≡ obj message
      → field_or R message (codes "content") null ≡ null
      → IsOpenRouterError (read_data R model (obj body))
  unfolding read_data get_or read_choices truthy content_of first_choice
  read_data-no_content model body choice message others first inside missing =
      rw (first, inside, missing) refl

  read_posted-IsFaulty :
      (model : Text) (posted : Posted R.Float)
      → IsFaulty posted
      → IsOpenRouterError (read_posted R model posted)
  unfolding read_posted get_field
  read_posted-IsFaulty model (http_error exc) (unreachable e) = refl
  read_posted-IsFaulty model (responded resp) (refused r high) =
      read_response-high model resp (ground arith)
  read_posted-IsFaulty model (responded resp) (not_json r exc e) = not_json_raises model resp exc e
  read_posted-IsFaulty model (responded resp) (no_choices r body e h) =
      read_response-low model resp (obj body) e (read_data-no_choices model body h)
  read_posted-IsFaulty model (responded resp) (no_message r body choice others e first h) =
      read_response-low model resp (obj body) e
        (read_data-no_content model body choice end others first (rw (h, field_or) refl) refl)
  read_posted-IsFaulty model (responded resp)
        (no_content r body choice message others e first inside h) =
      read_response-low model resp (obj body) e
        (read_data-no_content model body choice message others first (rw (inside, field_or) refl) h)
  read_posted-IsFaulty model (other_error e) x = elim x [ ]

  module _ (H : HttpClient R.Float) (client : OpenRouterClient) where
    -- `complete` raises `OpenRouterError`, and no other exception, if there is no response, if its
    -- status is from 400 on, if its body is no JSON, and if its body is a JSON object without
    -- choices or whose first choice has no message or no content.
    pub complete_faulty :
        (messages : List Message) (model : Text) (temperature : R.Float)
        (response_format : Option (Json R.Float)) (h : H.State)
        → IsFaulty
            (H.post client.endpoint client.headers
              (request_body R messages model temperature response_format)
              h).0
        → IsOpenRouterError (complete R H client messages model temperature response_format h).0
    unfolding complete
    complete_faulty messages model temperature response_format h faulty =
        let body = request_body R messages model temperature response_format in
        read_posted-IsFaulty model (H.post client.endpoint client.headers body h).0 faulty

    -- If `aclose` of the HTTP client closes it, then after `aclose` the client is closed if
    -- `OpenRouterClient` owns it, a client that was passed in is as before, and a second `aclose`
    -- changes nothing.
    pub aclose_lem :
        (closes : (h : H.State) → H.is_closed (H.aclose h) ≡ true) (h : H.State)
        → (((client.owns_client ≡ true) × (H.is_closed (aclose R H client h) ≡ true))
            ⊎ ((client.owns_client ≡ false) × (aclose R H client h ≡ h)))
          × (aclose R H client (aclose R H client h) ≡ aclose R H client h)
    unfolding aclose
    aclose_lem closes h = elim (Bool-cases client.owns_client) [
      | inr shared ↦ ground arith
      | inl own ↦ elim (Bool-cases (H.is_closed h)) [
        | inl closed ↦ ground arith
        | inr open_still ↦ ground (arith, closes h)
      ]
    ]
