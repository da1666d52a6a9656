-- ===== src/Graph.antt =====
-- The case graph: state (apps/api/src/graph/state.py), the client interface (graph/llm.py), the
-- four nodes (graph/nodes.py), routing (graph/edges.py) and assembly (graph/build.py).
pub mod State
pub mod Client
pub mod Nodes
pub mod Engine
pub mod Research
pub mod Safety
pub mod Loop
pub mod Termination
