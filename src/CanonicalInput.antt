-- ===== src/CanonicalInput.antt =====
-- trainer/src/semantscript_trainer/canonical_input.py: the canonical, type-aware serialization of
-- validated inputs.
pub mod Errors
pub mod Exec
pub mod Tree
pub mod Numbers
pub mod Spec
pub mod Keys
pub mod Schema
pub mod Leaves
pub mod Encode
pub mod Within
pub mod Small
pub mod Costs
pub mod CostsOfKinds
pub mod Budget
pub mod Escape
pub mod Writer
pub mod JsonText
pub mod WriterText
pub mod Compact
pub mod Serialize
pub mod Injective
pub mod Tokens
pub mod Order
pub mod Primitives
pub mod Conforms
pub mod Matches
pub mod NumberText
pub mod Written
mod Tests
