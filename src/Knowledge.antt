-- ===== src/Knowledge.antt =====
-- app/services/knowledge.py: the stored graph, its edges, and who may see it.
pub mod Edges
pub mod Visibility
