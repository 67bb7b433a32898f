-- ===== src/Llm/Bodies.antt =====
-- llm/openrouter.py: the JSON values in a reply.
use doccontext.Base.{◌≡◌, refl, sym, ap, ◌∙◌, Bool, true, false, none, some, [], ◌∷◌}
use doccontext.Base.{Text, codes, arith, inl, inr, Bool-cases, Option-cases}
use doccontext.Base.Exn.{Result, ok, raise, ◌>>=◌}
use doccontext.Base.Json.{
  Json, null, bool, int, float, str, arr, obj, Items, nil, cons, Fields, end, get_field,
}
use doccontext.Base.Runtime.{Runtime, truthy, to_str}
use doccontext.Llm.OpenRouter.{
  Completion, get_or, or_else, first_choice, usage_of, require_content, content_of, completion_of,
}

-- What is known of a statement and the rest if both end without a raise.
pub data Bound {A B : Type 0} (m : Result A) (f : A → Result B) (b : B) : Type 0 where
  bound : (a : A) → m ≡ ok a → f a ≡ ok b → Bound m f b

pub bind-ok :
    {A B : Type 0} (m : Result A) (f : A → Result B) (b : B) → (m >>= f) ≡ ok b → Bound m f b
bind-ok (ok a) f b h = bound a refl h
bind-ok (raise e) f b h = absurd (ground arith)

module _ (R : Runtime) where
  abbrev J : Type 0
  J = Json R.Float

  abbrev pub is_null : J → Bool
  is_null null = true
  is_null v = false

  -- The value of the field, or a default.
  abbrev pub field_or : Fields R.Float → Text → J → J
  field_or fs key default = elim (get_field key fs) [ none ↦ default | some v ↦ v ]

  get_or-ok :
      (v : J) (key : Text) (default u : J)
      → get_or R v key default ≡ ok u
      → (fs : Fields R.Float) × (v ≡ obj fs) × (u ≡ field_or fs key default)
  unfolding get_or
  get_or-ok (obj fs) key default u h = (fs, refl, ground arith)
  get_or-ok null key default u h = cc
  get_or-ok (bool b) key default u h = cc
  get_or-ok (int n) key default u h = cc
  get_or-ok (float x) key default u h = cc
  get_or-ok (str t) key default u h = cc
  get_or-ok (arr vs) key default u h = cc

  first_choice-ok :
      (choices : J) (choice : Fields R.Float)
      → first_choice R choices ≡ ok (obj choice)
      → (others : Items R.Float) × (choices ≡ arr (cons (obj choice) others))
  unfolding first_choice
  first_choice-ok (arr (cons v vs)) choice h = (vs, ground arith)
  first_choice-ok (arr nil) choice h = cc
  first_choice-ok (str (c ∷ t)) choice h = absurd (ground arith)
  first_choice-ok (str []) choice h = cc
  first_choice-ok (obj fs) choice h = cc
  first_choice-ok null choice h = cc
  first_choice-ok (bool b) choice h = cc
  first_choice-ok (int n) choice h = cc
  first_choice-ok (float x) choice h = cc

  require_content-ok :
      (body content : J) (u : Unit {0})
      → require_content R body content ≡ ok u
      → is_null content ≡ false
  require_content-ok body null u h = cc
  require_content-ok body (bool b) u h = refl
  require_content-ok body (int n) u h = refl
  require_content-ok body (float x) u h = refl
  require_content-ok body (str t) u h = refl
  require_content-ok body (arr vs) u h = refl
  require_content-ok body (obj fs) u h = refl

  -- A field whose value is not the default is there.
  field_some :
      (fs : Fields R.Float) (key : Text) (v : J)
      → v ≡ field_or fs key null
      → is_null v ≡ false
      → get_field key fs ≡ some v
  field_some fs key v h some_v = elim (Option-cases (get_field key fs)) [
    | inl absent ↦ absurd (ground arith)
    | inr (w, present) ↦ ground arith
  ]

  pub choices_some :
      (fs : Fields R.Float) (v : J) (vs : Items R.Float)
      → or_else R (field_or fs (codes "choices") null) (arr nil) ≡ arr (cons v vs)
      → get_field (codes "choices") fs ≡ some (arr (cons v vs))
  choices_some fs v vs h = elim (Bool-cases (truthy R (field_or fs (codes "choices") null))) [
    | inr falsy ↦ absurd (ground arith)
    | inl true_value ↦ field_some fs (codes "choices") (arr (cons v vs)) (ground arith) refl
  ]

  message_some :
      (choice message : Fields R.Float) (v : J)
      → obj message ≡ field_or choice (codes "message") (obj end)
      → get_field (codes "content") message ≡ some v
      → get_field (codes "message") choice ≡ some (obj message)
  unfolding get_field
  message_some choice message v h said = elim (Option-cases (get_field (codes "message") choice)) [
    | inl absent ↦ absurd (ground arith)
    | inr (w, present) ↦ ground arith
  ]

  -- The choices hold a first choice with this content.
  pub record Said (choices content : J) : Type 0 where
    pub choice : Fields R.Float
    pub others : Items R.Float
    pub message : Fields R.Float
    pub first : choices ≡ arr (cons (obj choice) others)
    pub inside : get_field (codes "message") choice ≡ some (obj message)
    pub content_said : get_field (codes "content") message ≡ some content
    pub content_some : is_null content ≡ false

  choice-Said :
      (choices choice message content : J)
      → first_choice R choices ≡ ok choice
      → get_or R choice (codes "message") (obj end) ≡ ok message
      → get_or R message (codes "content") null ≡ ok content
      → is_null content ≡ false
      → Said choices content
  choice-Said choices choice message content e1 e2 e3 present =
      let (choice_fields, choice_shape, message_value) =
        get_or-ok choice (codes "message") (obj end) message e2 in
      let (message_fields, message_shape, content_value) =
        get_or-ok message (codes "content") null content e3 in
      let (others, shape) = first_choice-ok choices choice_fields (e1 ∙ ap ok choice_shape) in
      let said = field_some message_fields (codes "content") content content_value present in
      record {
        choice = choice_fields;
        others = others;
        message = message_fields;
        first = shape;
        inside =
            message_some choice_fields message_fields content (sym message_shape ∙ message_value)
              said;
        content_said = said;
        content_some = present;
      }

  pub content_of-Said :
      (payload choices content : J)
      → content_of R payload choices ≡ ok content
      → Said choices content
  unfolding content_of
  content_of-Said payload choices content h = elim (bind-ok (first_choice R choices) _ content h) [
    | bound choice e1 h1 ↦
        elim (bind-ok (get_or R choice (codes "message") (obj end)) _ content h1) [
          | bound message e2 h2 ↦
              elim (bind-ok (get_or R message (codes "content") null) _ content h2) [
                | bound found e3 h3 ↦
                    elim (bind-ok (require_content R payload found) _ content h3) [
                      | bound u e4 h4 ↦
                          let some_found = require_content-ok payload found u e4 in
                          choice-Said choices choice message content e1 e2 (ground arith)
                            (ground arith)
                    ]
              ]
        ]
  ]

  pub completion_of-ok :
      (model : Text) (payload content : J) (r : Completion R)
      → completion_of R model payload content ≡ ok r
      → (fs : Fields R.Float) × (payload ≡ obj fs)
        × (content ≡ r.content)
        × (usage_of R (or_else R (field_or fs (codes "usage") null) (obj end)) ≡ ok r.usage)
        × (r.model ≡ to_str R (field_or fs (codes "model") (str model)))
        × (r.raw ≡ obj fs)
  unfolding completion_of get_or
  completion_of-ok model (obj fs) content r h =
      elim (bind-ok (usage_of R (or_else R (field_or fs (codes "usage") null) (obj end))) _ r h) [
        | bound usage e1 h1 ↦ (fs, refl, ground arith, ground arith, ground arith, ground arith)
      ]
  completion_of-ok model null content r h = cc
  completion_of-ok model (bool b) content r h = cc
  completion_of-ok model (int n) content r h = cc
  completion_of-ok model (float x) content r h = cc
  completion_of-ok model (str t) content r h = cc
  completion_of-ok model (arr vs) content r h = cc
