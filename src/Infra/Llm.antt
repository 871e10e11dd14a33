-- ===== src/Infra/Llm.antt =====
-- app/infra/llm
pub mod Anthropic
pub mod Forgery
pub mod Outcomes
pub mod Summaries
pub mod Fake
pub mod Consistent
