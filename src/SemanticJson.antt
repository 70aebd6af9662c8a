-- ===== src/SemanticJson.antt =====
-- trainer/src/semantscript_trainer/semantic_json.py: the typed encoding of JSON values that the
-- compiler shares.
pub mod Node
pub mod Write
pub mod Scalar
pub mod Writable
pub mod Injective
mod Tests
