-- ===== src/Llm/Completions.antt =====
-- llm/openrouter.py: the replies that `OpenRouterClient.complete` takes.
use mathlib.Core.Path.{subst}
use doccontext.Base.{◌≡◌, refl, sym, ap, ◌∙◌, ◌<◌, ◌↔◌, false, Option, some, List}
use doccontext.Base.{Text, codes, leb, arith, ◌⊎◌, inl, inr, Bool-cases}
use doccontext.Base.Exn.{ok}
use doccontext.Base.Json.{
  Json, null, bool, int, float, str, arr, obj, Items, nil, cons, Fields, end, get_field,
}
use doccontext.Base.Runtime.{Runtime, truthy, to_str}
use doccontext.Llm.Client.{Message}
use doccontext.Llm.OpenRouter.{
  HttpResponse, Posted, responded, http_error, other_error, HttpClient, OpenRouterClient,
  Completion, request_body, get_or, or_else, first_choice, content_of, completion_of, read_choices,
  read_data, read_response, read_posted, complete,
}
use doccontext.Llm.Bodies.{
  bound, bind-ok, is_null, field_or, Said, choices_some, content_of-Said, completion_of-ok,
}
use doccontext.Llm.Counts.{IsCounted, usage_of-IsCounted, IsCounted-usage_of}

module _ (R : Runtime) where
  abbrev J : Type 0
  J = Json R.Float

  -- The response has a status below 400 and a body that is a JSON object with a first choice, a
  -- message in it, a content in it, and no usage or one with counts; the completion has this
  -- content, the counts and the model of the body, and the body.
  pub record IsAnswer (model : Text) (posted : Posted R.Float) (r : Completion R) : Type 0 where
    pub response : HttpResponse R.Float
    pub body : Fields R.Float
    pub choice : Fields R.Float
    pub others : Items R.Float
    pub message : Fields R.Float
    pub arrived : posted ≡ responded response
    pub status_low : response.status_code < 400
    pub body_json : response.json ≡ inr (obj body)
    pub first : get_field (codes "choices") body ≡ some (arr (cons (obj choice) others))
    pub inside : get_field (codes "message") choice ≡ some (obj message)
    pub content_said : get_field (codes "content") message ≡ some r.content
    pub content_some : is_null R r.content ≡ false
    pub usage_said :
        IsCounted R (or_else R (field_or R body (codes "usage") null) (obj end)) r.usage
    pub model_said : r.model ≡ to_str R (field_or R body (codes "model") (str model))
    pub raw_body : r.raw ≡ obj body

  read_choices-ok :
      (model : Text) (payload choices : J) (r : Completion R)
      → read_choices R model payload choices ≡ ok r
      → Said R choices r.content × (completion_of R model payload r.content ≡ ok r)
  unfolding read_choices
  read_choices-ok model payload choices r h = elim (Bool-cases (truthy R choices)) [
    | inr falsy ↦ absurd (ground arith)
    | inl some_choices ↦ elim (bind-ok (content_of R payload choices) _ r (rw some_choices at h)) [
      | bound content e1 h1 ↦
          let kept = (completion_of-ok R model payload content r h1).2 in
          (
            content_of-Said R payload choices r.content (e1 ∙ ap ok kept),
            subst (λ c. completion_of R model payload c ≡ ok r) kept h1,
          )
    ]
  ]

  Said-IsAnswer :
      (model : Text) (response : HttpResponse R.Float) (payload choices : J) (r : Completion R)
      → response.status_code < 400
      → response.json ≡ inr payload
      → get_or R payload (codes "choices") null ≡ ok choices
      → Said R (or_else R choices (arr nil)) r.content
      → completion_of R model payload r.content ≡ ok r
      → IsAnswer model (responded response) r
  unfolding get_or
  Said-IsAnswer model response payload choices r low is_json got said done =
      let (fs, shape, kept, counts, name, raw) =
        completion_of-ok R model payload r.content r done in
      let value : choices ≡ field_or R fs (codes "choices") null = ground arith in
      record {
        response = response;
        body = fs;
        choice = said.choice;
        others = said.others;
        message = said.message;
        arrived = refl;
        status_low = low;
        body_json = is_json ∙ ap inr shape;
        first =
            choices_some R fs (obj said.choice) said.others
              (ap (λ c. or_else R c (arr nil)) (sym value) ∙ said.first);
        inside = said.inside;
        content_said = said.content_said;
        content_some = said.content_some;
        usage_said =
            usage_of-IsCounted R (or_else R (field_or R fs (codes "usage") null) (obj end)) r.usage
              counts;
        model_said = name;
        raw_body = raw;
      }

  read_data-IsAnswer :
      (model : Text) (response : HttpResponse R.Float) (payload : J) (r : Completion R)
      → response.status_code < 400
      → response.json ≡ inr payload
      → read_data R model payload ≡ ok r
      → IsAnswer model (responded response) r
  unfolding read_data
  read_data-IsAnswer model response payload r low is_json h =
      elim (bind-ok (get_or R payload (codes "choices") null) _ r h) [
        | bound choices got h1 ↦
            let (said, done) = read_choices-ok model payload (or_else R choices (arr nil)) r h1 in
            Said-IsAnswer model response payload choices r low is_json got said done
      ]

  read_posted-IsAnswer :
      (model : Text) (posted : Posted R.Float) (r : Completion R)
      → read_posted R model posted ≡ ok r
      → IsAnswer model posted r
  unfolding read_posted read_response
  read_posted-IsAnswer model (responded response) r h =
      elim (Bool-cases (leb 400 response.status_code)) [
        | inl high ↦ absurd (ground arith)
        | inr low ↦ of_json response.json refl
      ]
    where
      of_json : (j : Text ⊎ J) → response.json ≡ j → IsAnswer model (responded response) r
      of_json (inl exc) e = absurd (ground arith)
      of_json (inr payload) e =
          read_data-IsAnswer model response payload r (ground arith) e (ground arith)
  read_posted-IsAnswer model (http_error exc) r h = absurd (ground arith)
  read_posted-IsAnswer model (other_error e) r h = absurd (ground arith)

  IsAnswer-content_of :
      (model : Text) (posted : Posted R.Float) (r : Completion R) (payload : J)
      → (a : IsAnswer model posted r)
      → content_of R payload (arr (cons (obj a.choice) a.others)) ≡ ok r.content
  unfolding content_of first_choice get_or
  IsAnswer-content_of model posted r payload a =
      said_content r.content a.content_said a.content_some
    where
      said_content :
          (content : J)
          → get_field (codes "content") a.message ≡ some content
          → is_null R content ≡ false
          → content_of R payload (arr (cons (obj a.choice) a.others)) ≡ ok content
      said_content null e h = cc
      said_content (bool b) e h = rw (a.inside, e) refl
      said_content (int n) e h = rw (a.inside, e) refl
      said_content (float x) e h = rw (a.inside, e) refl
      said_content (str t) e h = rw (a.inside, e) refl
      said_content (arr vs) e h = rw (a.inside, e) refl
      said_content (obj fs) e h = rw (a.inside, e) refl

  IsAnswer-completion_of :
      (model : Text) (posted : Posted R.Float) (r : Completion R)
      → (a : IsAnswer model posted r) → completion_of R model (obj a.body) r.content ≡ ok r
  unfolding completion_of get_or
  IsAnswer-completion_of model posted r a =
      let counts =
        IsCounted-usage_of R (or_else R (field_or R a.body (codes "usage") null) (obj end)) r.usage
          a.usage_said in
      rw counts (
        ap (λ m. ok (record { content = r.content; model = m; usage = r.usage; raw = obj a.body }))
          (sym a.model_said)
        ∙ ap (λ b. ok (record r { raw = b })) (sym a.raw_body))

  IsAnswer-read_posted :
      (model : Text) (posted : Posted R.Float) (r : Completion R)
      → IsAnswer model posted r
      → read_posted R model posted ≡ ok r
  unfolding read_posted read_response read_data read_choices get_or truthy
  IsAnswer-read_posted model posted r a =
      let low : leb 400 a.response.status_code ≡ false = ground arith in
      let parts = IsAnswer-content_of model posted r (obj a.body) a in
      let whole = IsAnswer-completion_of model posted r a in
      rw (a.arrived, read_posted, low, a.body_json, read_data, a.first, parts) whole

  module _ (H : HttpClient R.Float) (client : OpenRouterClient) where
    -- `complete` sends one request, with the messages to the endpoint, and returns a completion if
    -- and only if the response has a status below 400 and a JSON object with a first choice, a
    -- message in it and a content in it that is not null, and with a usage that is missing or falsy
    -- or is an object whose three counts, where they are there, convert to integers. Then the
    -- completion has this content, the model of the object or the one that was asked for, these
    -- counts, each 0 if it is not there, and the object itself.
    pub complete_iff :
        (messages : List Message) (model : Text) (temperature : R.Float)
        (response_format : Option (Json R.Float)) (h : H.State) (r : Completion R)
        → let (posted, h₁) =
            H.post client.endpoint client.headers
              (request_body R messages model temperature response_format)
              h in
          (complete R H client messages model temperature response_format h ≡ (ok r, h₁))
          ↔ IsAnswer model posted r
    unfolding complete
    complete_iff messages model temperature response_format h r =
        let body = request_body R messages model temperature response_format in
        let sent = H.post client.endpoint client.headers body h in
        (
          λ e. read_posted-IsAnswer model sent.0 r (ap (λ x. x.0) e),
          λ a. ap (λ x. (x, sent.1)) (IsAnswer-read_posted model sent.0 r a),
        )
