-- ===== src/Llm/OpenRouter.antt =====
-- llm/openrouter.py: `OpenRouterClient`, over any HTTP client.
use doccontext.Base.{ℕ, Bool, true, false, Option, none, some, List, [], ◌∷◌, ◌++◌, not, ◌&&◌, ◌==◌}
use doccontext.Base.{Text, codes, leb, take, if◌then◌else◌, ◌⊎◌, inl, inr}
use doccontext.Base.Int.{ℤ, pos}
use doccontext.Base.Exn.{
  Result, ok, raise, throw, ◌>>=◌, ◌>>◌, Exn, attribute_error, key_error, type_error, value_error,
  open_router_error,
}
use doccontext.Base.Json.{
  Json, null, bool, int, float, str, arr, obj, Items, nil, cons, Fields, end, field, get_field,
}
use doccontext.Base.Runtime.{Runtime, truthy, to_str, decimal}
use doccontext.Llm.Client.{Role, user, system, assistant, Message, Usage, LlmResponse, LlmClient}
use doccontext.Setup.Config.{Settings}

-- `text.rstrip("/")`; the code of the slash is 47.
unfoldable pub rstrip_slash : Text → Text
rstrip_slash [] = []
rstrip_slash (c ∷ text) = elim (rstrip_slash text) [
  | [] ↦ if c == 47 then [] else c ∷ []
  | d ∷ rest ↦ c ∷ d ∷ rest
]

-- `httpx.Response`: the status, the text of the body, and what `json()` returns or the text of the
-- `ValueError` that it raises.
pub record HttpResponse (F : Type 0) : Type 0 where
  pub status_code : ℕ
  pub text : Text
  pub json : Text ⊎ Json F

-- How `post` ends: with a response, with an `httpx.HTTPError`, or with another exception.
pub data Posted (F : Type 0) : Type 0 where
  responded : HttpResponse F → Posted F
  http_error : Text → Posted F
  other_error : Exn → Posted F

-- `httpx.AsyncClient`
pub record HttpClient (F : Type 0) : Type 1 where
  pub State : Type 0
  -- endpoint, headers, body
  pub post : Text → List (Text × Text) → Json F → State → Posted F × State
  pub is_closed : State → Bool
  pub aclose : State → State

-- The attributes of `OpenRouterClient` beside its HTTP client.
pub record OpenRouterClient : Type 0 where
  pub owns_client : Bool
  pub endpoint : Text
  pub headers : List (Text × Text)

-- `__init__`; `given` tells whether an `http_client` was passed.
unfoldable pub open_router_client : Settings → Bool → OpenRouterClient
open_router_client s given = record {
  owns_client = not given;
  endpoint = rstrip_slash s.openrouter_base_url ++ codes "/chat/completions";
  headers =
      (codes "Authorization", codes "Bearer " ++ s.openrouter_api_key)
      ∷ (codes "Content-Type", codes "application/json")
      ∷ (codes "HTTP-Referer", codes "https://github.com/doccontext")
      ∷ (codes "X-Title", codes "doccontext")
      ∷ [];
}

abbrev pub role_to_str : Role → Text
role_to_str user = codes "user"
role_to_str system = codes "system"
role_to_str assistant = codes "assistant"

module _ (R : Runtime) where
  abbrev J : Type 0
  J = Json R.Float

  -- `LLMResponse`, whose content is what the body holds
  pub record Completion : Type 0 where
    pub content : Json R.Float
    pub model : Text
    pub usage : Usage
    pub raw : Json R.Float

  abbrev message_items : List Message → Items R.Float
  message_items [] = nil
  message_items (m ∷ messages) =
      cons
        (obj (
          field (codes "role") (str (role_to_str m.role))
            (field (codes "content") (str m.content) end)))
        (message_items messages)

  abbrev response_format_field : Option J → Fields R.Float
  response_format_field none = end
  response_format_field (some response_format) = field (codes "response_format") response_format end

  -- The body of the request.
  unfoldable pub request_body : List Message → Text → R.Float → Option (Json R.Float) → Json R.Float
  request_body messages model temperature response_format = obj (
      field (codes "model") (str model) (
        field (codes "messages") (arr (message_items messages)) (
          field (codes "temperature") (float temperature) (response_format_field response_format))))

  abbrev type_name : J → Text
  type_name null = codes "NoneType"
  type_name (bool b) = codes "bool"
  type_name (int n) = codes "int"
  type_name (float x) = codes "float"
  type_name (str t) = codes "str"
  type_name (arr vs) = codes "list"
  type_name (obj fs) = codes "dict"

  -- `value.get(key, default)`
  unfoldable pub get_or : J → Text → J → Result J
  get_or (obj fs) key default = ok (elim (get_field key fs) [ none ↦ default | some v ↦ v ])
  get_or v key default =
      throw attribute_error (codes "'" ++ type_name v ++ codes "' object has no attribute 'get'")

  -- `value or default`
  abbrev pub or_else : J → J → J
  or_else v default = if truthy R v then v else default

  -- `choices[0]`, for choices that are not falsy
  unfoldable pub first_choice : J → Result J
  first_choice (arr (cons v vs)) = ok v
  first_choice (str (c ∷ t)) = ok (str (c ∷ []))
  first_choice (obj fs) = throw key_error (codes "0")
  first_choice v =
      throw type_error (codes "'" ++ type_name v ++ codes "' object is not subscriptable")

  -- `int(value)`
  unfoldable pub int_of : J → Result ℤ
  int_of (bool false) = ok (pos 0)
  int_of (bool true) = ok (pos 1)
  int_of (int n) = ok n
  int_of (float x) = R.int_of_float x
  int_of (str t) = elim (R.int_of_text t) [
    | none ↦ throw value_error (codes "invalid literal for int() with base 10")
    | some n ↦ ok n
  ]
  int_of v =
      throw type_error (codes "int() argument must be a number, not '" ++ type_name v ++ codes "'")

  -- `if content is None: raise`
  abbrev pub require_content : J → J → Result (Unit {0})
  require_content payload null =
      throw open_router_error (codes "OpenRouter response missing content: " ++ R.repr payload)
  require_content payload v = ok tt

  abbrev count : J → Text → Result ℤ
  count usage key = do v ← get_or usage key (int (pos 0)); int_of v

  -- `Usage(…)`
  unfoldable pub usage_of : J → Result Usage
  usage_of usage = do
    prompt ← count usage (codes "prompt_tokens")
    completion ← count usage (codes "completion_tokens")
    total ← count usage (codes "total_tokens")
    ok (record { prompt_tokens = prompt; completion_tokens = completion; total_tokens = total })

  -- `content`, for choices that are not falsy
  unfoldable pub content_of : J → J → Result J
  content_of payload choices = do
    choice ← first_choice choices
    message ← get_or choice (codes "message") (obj end)
    content ← get_or message (codes "content") null
    require_content payload content
    ok content

  -- What follows `content`.
  unfoldable pub completion_of : Text → J → J → Result Completion
  completion_of model payload content = do
    usage_raw ← get_or payload (codes "usage") null
    usage ← usage_of (or_else usage_raw (obj end))
    name ← get_or payload (codes "model") (str model)
    ok (record { content = content; model = to_str R name; usage = usage; raw = payload })

  -- What follows `choices`.
  unfoldable pub read_choices : Text → J → J → Result Completion
  read_choices model payload choices =
      if truthy R choices
      then (do content ← content_of payload choices; completion_of model payload content)
      else throw open_router_error (codes "OpenRouter response had no choices: " ++ R.repr payload)

  -- What follows `resp.json()`.
  unfoldable pub read_data : Text → J → Result Completion
  read_data model payload = do
    choices ← get_or payload (codes "choices") null
    read_choices model payload (or_else choices (arr nil))

  -- What follows `resp`.
  unfoldable pub read_response : Text → HttpResponse R.Float → Result Completion
  read_response model resp =
      if leb 400 resp.status_code
      then throw open_router_error (
          codes "OpenRouter returned "
          ++ decimal R resp.status_code
          ++ codes ": "
          ++ take 500 resp.text)
      else elim resp.json [
        | inl exc ↦ throw open_router_error (codes "OpenRouter returned non-JSON body: " ++ exc)
        | inr payload ↦ read_data model payload
      ]

  unfoldable pub read_posted : Text → Posted R.Float → Result Completion
  read_posted model (responded resp) = read_response model resp
  read_posted model (http_error exc) =
      throw open_router_error (codes "HTTP error calling OpenRouter: " ++ exc)
  read_posted model (other_error e) = raise e

  module _ (H : HttpClient R.Float) (client : OpenRouterClient) where
    -- `complete`
    unfoldable pub complete :
        List Message
        → Text
        → R.Float
        → Option (Json R.Float)
        → H.State
        → Result Completion × H.State
    complete messages model temperature response_format h =
        let (posted, h₁) =
          H.post client.endpoint client.headers
            (request_body messages model temperature response_format) h in
        (read_posted model posted, h₁)

    -- `aclose`
    unfoldable pub aclose : H.State → H.State
    aclose h = if client.owns_client && not (H.is_closed h) then H.aclose h else h

  -- The content, for a caller that passes it to `json.loads`, which takes a text only.
  abbrev text_content : J → Result Text
  text_content (str t) = ok t
  text_content v =
      throw type_error
        (codes "the JSON object must be str, bytes or bytearray, not " ++ type_name v)

  unfoldable pub as_response : Result Completion → Result LlmResponse
  as_response (raise e) = raise e
  as_response (ok r) = do
    content ← text_content r.content
    ok (record { content = content; model = r.model; usage = r.usage })

  -- `response_format={"type": "json_object"}`
  abbrev pub json_object : Json R.Float
  json_object = obj (field (codes "type") (str (codes "json_object")) end)

  -- The client as the query handler calls it.
  abbrev pub open_router_llm : HttpClient R.Float → OpenRouterClient → LlmClient
  open_router_llm H client = record {
    State = H.State;
    complete = λ messages model h.
        let (r, h₁) = complete H client messages model R.zero (some json_object) h in
        (as_response r, h₁);
  }
