-- ===== src/StrictJson.antt =====
-- trainer/src/semantscript_trainer/strict_json.py: JSON of untrusted teacher responses, read with
-- limits. `StrictJsonError` is a ValueError, and stands as one here.
pub mod Document
pub mod Depth
pub mod Json
pub mod Nodes
pub mod Load
mod Tests
