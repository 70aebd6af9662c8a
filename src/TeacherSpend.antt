-- ===== src/TeacherSpend.antt =====
-- trainer/src/semantscript_trainer/teacher_spend.py: the meter of what a run's requests cost, and the
-- journal that keeps the paid responses.
pub mod Document
pub mod Journal
pub mod Meter
pub mod Price
pub mod Send
mod Tests
