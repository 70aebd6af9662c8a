-- ===== src/Constraints.antt =====
-- trainer/src/semantscript_trainer/constraints.py: the constraints on the inputs and the output of a
-- function, their types, their compilation and their evaluation as JavaScript does it.
pub mod Numbers
pub mod View
pub mod Types
pub mod Eval
pub mod Reading
pub mod Operators
pub mod Evaluate
pub mod Compiled
pub mod Compile
pub mod Safety
pub mod Levels
pub mod Scan
pub mod Units
pub mod Utf16
pub mod Expression
mod Tests
