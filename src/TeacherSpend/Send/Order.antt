-- ===== src/TeacherSpend/Send/Order.antt =====
-- The order of doubles by which teacher_spend.py compares a cost with the cap.
use semant_script.Prelude.{ℕ, ◌≡◌, ◌^◌, ◌<◌, false, arith}
use semant_script.Python.Float.{is_zero}
use semant_script.Constraints.Numbers.{float_lt}

pub float_lt_trans :
    (x y z : ℕ)
    → x < 2 ^ 64
    → y < 2 ^ 64
    → z < 2 ^ 64
    → float_lt x y ≡ false
    → float_lt y z ≡ false
    → float_lt x z ≡ false
unfolding float_lt is_zero
float_lt_trans x y z bx by bz e f = ground arith
