-- ===== src/Llm/Client.antt =====
-- llm/base.py: messages and the client of a language model.
use doccontext.Base.{List, Text}
use doccontext.Base.Int.{ℤ}
use doccontext.Base.Exec.{Exec}

-- `Role`
pub data Role : Type 0 where
  user system assistant : Role

-- `Message`
pub record Message : Type 0 where
  pub role : Role
  pub content : Text

-- `Usage`
pub record Usage : Type 0 where
  pub prompt_tokens : ℤ
  pub completion_tokens : ℤ
  pub total_tokens : ℤ

-- `LLMResponse`, without the raw body
pub record LlmResponse : Type 0 where
  pub content : Text
  pub model : Text
  pub usage : Usage

-- `LLMClient`. All its calls have the temperature 0.0 and ask for a JSON object.
pub record LlmClient : Type 1 where
  pub State : Type 0
  -- messages, model
  pub complete : List Message → Text → Exec State LlmResponse
