-- ===== src/Tests.antt =====
-- Runs of the model on concrete inputs, and the theorems applied at them.
mod Fixtures
mod Guardrails
mod Tools
mod Graph
mod Store
mod Service
mod Concurrent
mod Routes
mod Llm
mod Console
