-- ===== src/Plan.antt =====
-- src/plan: the dependencies between the operations of a plan.
pub mod Model
pub mod Visiting
pub mod Sizes
pub mod Bounds
pub mod TypeBounds
pub mod Layout
pub mod Dependencies
pub mod Identities
pub mod Executable
pub mod LayoutGraph
pub mod ArrayDescriptor
