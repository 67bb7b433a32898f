-- ===== src/Llm.antt =====
-- The language model's interface and prompts (src/doccontext/llm/).
pub mod Bodies
pub mod Client
pub mod Counts
pub mod Completions
pub mod Failures
pub mod OpenRouter
pub mod Prompts
