-- ===== src/Llm.antt =====
-- Calls of language models (src/llm): what they cost.
pub mod CostTracker
