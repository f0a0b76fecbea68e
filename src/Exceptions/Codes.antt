-- ===== src/Exceptions/Codes.antt =====
-- src/pyon/core/exception.py, ExceptionFactory: which class a code brings back.
use scioncc.Prelude.{◌≡◌, ◌≢◌, refl, arith}
use scioncc.Prelude.Int.{pos}
use scioncc.Exceptions.{ExceptionClass, ion_exception, status_code, class_of}

-- Every class but IonException, which shares its code with StreamException, comes back.
pub class_of-status_code :
    (d c : ExceptionClass) → c ≢ ion_exception → class_of d (status_code c) ≡ c
unfolding class_of status_code
class_of-status_code d ion_exception h = absurd (h refl)
class_of-status_code d c h = refl

-- No class has the code of success.
pub status_code_fails : (c : ExceptionClass) → status_code c ≢ pos 200
unfolding status_code
status_code_fails ion_exception h = ground arith
status_code_fails c h = ground arith
