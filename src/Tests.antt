-- ===== src/Tests.antt =====
-- Concrete inputs.
mod Samples
mod Chunks
mod Rows
mod Work
mod Requests
mod Search
mod Answers
mod Replies
mod Startup
mod Journeys
mod Handovers
mod Recalls
