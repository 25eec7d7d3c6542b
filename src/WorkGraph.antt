-- ===== src/WorkGraph.antt =====
-- packages/work-graph/src/work-graph.ts: the rules of the work graph.
pub mod Relationship
pub mod Associations
mod Tests
