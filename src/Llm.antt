-- ===== src/Llm.antt =====
-- The production client behind the graph (apps/api/src/graph/llm.py): the choice of a provider, the
-- prompts, and the client over a chat model.
pub mod Provider
pub mod Prompts
pub mod Chat
pub mod Laws
