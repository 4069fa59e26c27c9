-- ===== src/Ir.antt =====
-- The graph of the optimizer's intermediate form (src/ir/sea_of_nodes.cpp) and its passes
-- (src/optimizer). A `Node*` is the id of the node: the graph gives each node an id of its own.
pub mod Kind
pub mod Types
pub mod Graph
pub mod Passes
pub mod Reduce
mod Tests
