-- ===== src/TeacherSpend/Journal/Batches.antt =====
-- The batches of `ResponseJournal` in teacher_spend.py, beside its responses.
use semant_script.Python.Text.{Text}
use semant_script.TeacherSpend.Journal.{Journal}
