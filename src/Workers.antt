-- ===== src/Workers.antt =====
-- The worker (src/doccontext/workers/).
pub mod Envelope
pub mod RoundTrip
pub mod DocumentWorker
pub mod Outcome
pub mod Indexing
pub mod Refusal
pub mod Consumer
pub mod Drain
pub mod Recall
