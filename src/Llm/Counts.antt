-- ===== src/Llm/Counts.antt =====
-- llm/openrouter.py: the counts of a reply.
use doccontext.Base.{◌≡◌, refl, ap, ◌∙◌, arith, codes}
use doccontext.Base.Exn.{ok}
use doccontext.Base.Int.{pos}
use doccontext.Base.Json.{Json, null, bool, int, float, str, arr, obj, Fields}
use doccontext.Base.Runtime.{Runtime}
use doccontext.Llm.Client.{Usage}
use doccontext.Llm.OpenRouter.{get_or, int_of, usage_of}
use doccontext.Llm.Bodies.{bound, bind-ok, field_or}

module _ (R : Runtime) where
  -- The value is an object, and each count is the integer of its key, or of 0 if it is not there.
  pub record IsCounted (v : Json R.Float) (u : Usage) : Type 0 where
    pub fields : Fields R.Float
    pub is_object : v ≡ obj fields
    pub prompt_said :
        int_of R (field_or R fields (codes "prompt_tokens") (int (pos 0))) ≡ ok u.prompt_tokens
    pub completion_said :
        int_of R (field_or R fields (codes "completion_tokens") (int (pos 0)))
        ≡ ok u.completion_tokens
    pub total_said :
        int_of R (field_or R fields (codes "total_tokens") (int (pos 0))) ≡ ok u.total_tokens

  pub usage_of-IsCounted : (v : Json R.Float) (u : Usage) → usage_of R v ≡ ok u → IsCounted v u
  unfolding usage_of get_or
  usage_of-IsCounted (obj fs) u h =
      elim (bind-ok (int_of R (field_or R fs (codes "prompt_tokens") (int (pos 0)))) _ u h) [
        | bound prompt e1 h1 ↦
            elim (bind-ok (int_of R (field_or R fs (codes "completion_tokens") (int (pos 0)))) _ u
              h1) [
                | bound completion e2 h2 ↦
                    elim (bind-ok (int_of R (field_or R fs (codes "total_tokens") (int (pos 0)))) _
                      u h2) [
                        | bound total e3 h3 ↦ record {
                          fields = fs;
                          is_object = refl;
                          prompt_said = ground arith;
                          completion_said = ground arith;
                          total_said = ground arith;
                        }
                      ]
              ]
      ]
  usage_of-IsCounted null u h = cc
  usage_of-IsCounted (bool b) u h = cc
  usage_of-IsCounted (int n) u h = cc
  usage_of-IsCounted (float x) u h = cc
  usage_of-IsCounted (str t) u h = cc
  usage_of-IsCounted (arr vs) u h = cc

  pub IsCounted-usage_of : (v : Json R.Float) (u : Usage) → IsCounted v u → usage_of R v ≡ ok u
  unfolding usage_of get_or
  IsCounted-usage_of v u c =
      ap (usage_of R) c.is_object ∙ rw (c.prompt_said, c.completion_said, c.total_said) refl
