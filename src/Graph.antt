-- ===== src/Graph.antt =====
-- The graph runtime (source/apixis/core/graph).
pub mod State
pub mod Command
pub mod Commands
pub mod Context
pub mod Runtime
pub mod Restore
pub mod Run
pub mod Namespace
pub mod Stream
pub mod Block
pub mod Definition
pub mod Gather
pub mod Nodes
pub mod Invoke
pub mod Hooks
pub mod Current
mod Examples
