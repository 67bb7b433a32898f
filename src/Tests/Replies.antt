-- ===== src/Tests/Replies.antt =====
-- OpenRouter's client over an HTTP client that always replies the same.
use doccontext.Base.{ℕ, ◌≡◌, ◌↔◌, false, none, [], inr, codes, arith}
use doccontext.Base.Int.{pos}
use doccontext.Base.Exn.{ok}
use doccontext.Base.Json.{Json, str, int, arr, obj, nil, cons, end, field}
use doccontext.Llm.OpenRouter.{
  responded, HttpClient, OpenRouterClient, Completion, complete, open_router_client,
}
use doccontext.Llm.Completions.{IsAnswer, complete_iff}
use doccontext.Llm.Failures.{IsOpenRouterError, complete_faulty, refused}
use doccontext.Setup.Config.{default_settings}
use doccontext.Tests.Samples.{sample_runtime}

abbrev reply_body : Json ℕ
reply_body = obj (
    field (codes "choices")
      (arr (
        cons
          (obj (field (codes "message") (obj (field (codes "content") (str (codes "hi")) end)) end))
          nil))
      (field (codes "usage") (obj (field (codes "total_tokens") (int (pos 3)) end)) end))

abbrev http_client : ℕ → HttpClient ℕ
http_client status_code = record {
  State = ℕ;
  post = λ endpoint headers body s. (
    responded (record { status_code = status_code; text = codes "x"; json = inr reply_body }),
    s,
  );
  is_closed = λ s. false;
  aclose = λ s. s;
}

abbrev client : OpenRouterClient
client = open_router_client default_settings false

abbrev completion : Completion sample_runtime
completion = record {
  content = str (codes "hi");
  model = codes "m";
  usage = record { prompt_tokens = pos 0; completion_tokens = pos 0; total_tokens = pos 3 };
  raw = reply_body;
}

complete_iff_example :
    (complete sample_runtime (http_client 200) client [] (codes "m") 0 none 7 ≡ (ok completion, 7))
    ↔ IsAnswer sample_runtime
        (codes "m")
        (responded (record { status_code = 200; text = codes "x"; json = inr reply_body }))
        completion
complete_iff_example =
    complete_iff sample_runtime (http_client 200) client [] (codes "m") 0 none 7 completion

complete_faulty_example :
    IsOpenRouterError sample_runtime
      (complete sample_runtime (http_client 503) client [] (codes "m") 0 none 7).0
complete_faulty_example =
    complete_faulty sample_runtime (http_client 503) client [] (codes "m") 0 none 7 (
      refused (record { status_code = 503; text = codes "x"; json = inr reply_body }) (omega arith))
