-- ===== src/Procs/Preserving.antt =====
-- src/pyon/container/procs.py: methods that keep every process of the registry under its own id, also
-- where they raise.
use scioncc.Prelude.{
  ◌≡◌, refl, ◌∙◌, String, Bool, true, false, Option-cases, inl, inr, eq_iff, string_eq, nat_eq,
  Result, ok, err, and_then, when, ◌>>=◌, ◌>>◌, arith,
}
use scioncc.Prelude.Dict
use scioncc.Prelude.Dict.{get-put, get-remove}
use scioncc.Procs.{type_eq, Process, ProcError, ProcManager, Method, ask, swallow}
use scioncc.Procs.Registering.{set_process, enter}
use scioncc.Procs.Terminating.{leave}
use scioncc.Procs.Stopping.{IsKeyed}

IsKeyed-put :
    (d : Dict.Dict String Process) (pid : String) (y : Process)
    → IsKeyed d
    → y.id ≡ pid
    → IsKeyed (Dict.put d pid y)
IsKeyed-put d pid y v own k x h = ground (arith, get-put d pid k y, eq_iff pid k, v k x, h, own)

IsKeyed-remove :
    (d : Dict.Dict String Process) (pid : String) → IsKeyed d → IsKeyed (Dict.remove d pid)
IsKeyed-remove d pid v k x h = ground (arith, get-remove d pid k, eq_iff pid k, v k x, h)

module _ {W : Type 0} where
  abbrev pub Keyed : ProcManager W → Type 0
  Keyed p = IsKeyed p.procs

  -- A method that keeps the processes under their ids, also where it raises.
  abbrev pub Preserves : {A : Type 0} → Method W A → Type 0
  Preserves m = (p : ProcManager W) → Keyed p → Keyed (m p).1

  after :
      {A B : Type 0} (r : Result ProcError A × ProcManager W) (next : A → Method W B)
      → Keyed r.1
      → ((a : A) → Preserves (next a))
      → Keyed (and_then r next).1
  after (ok a, p) next k h = h a p k
  after (err e, p) next k h = k

  pub Preserves-bind :
      {A B : Type 0} (m : Method W A) (next : A → Method W B)
      → Preserves m
      → ((a : A) → Preserves (next a))
      → Preserves (m >>= next)
  Preserves-bind m next h k p v = after (m p) next (h p v) k

  pub Preserves-then :
      {A B : Type 0} (m : Method W A) (next : Method W B)
      → Preserves m
      → Preserves next
      → Preserves (m >> next)
  Preserves-then m next h k p v = after (m p) (λ a. next) (h p v) (λ a. k)

  pub Preserves-when : (b : Bool) (m : Method W (Unit {0})) → Preserves m → Preserves (when b m)
  Preserves-when true m h = h
  Preserves-when false m h = λ p v. v

  pub Preserves-swallow : (m : Method W (Unit {0})) → Preserves m → Preserves (λ p. swallow (m p))
  Preserves-swallow m h p v = h p v

  pub Preserves-ask : {A : Type 0} (f : W → Result ProcError A × W) → Preserves (ask f)
  Preserves-ask f p v = v

  pub Keyed-set_process :
      (pid : String) (change : Process → Process) (p : ProcManager W)
      → ((x : Process) → (change x).id ≡ x.id)
      → Keyed p
      → Keyed (set_process pid change p)
  Keyed-set_process pid change p same v = elim (Option-cases (Dict.get p.procs pid)) [
    | inl h ↦ rw (h, set_process) v
    | inr (x, h) ↦ rw (h, set_process) (IsKeyed-put p.procs pid (change x) v (same x ∙ v pid x h))
  ]

  pub Keyed-enter : (x : Process) (p : ProcManager W) → Keyed p → Keyed (enter x p)
  Keyed-enter x p v = IsKeyed-put p.procs x.id x v refl

  pub Keyed-leave :
      (pid : String) (x : Process) (p : ProcManager W) → Keyed p → Keyed (leave pid x p)
  unfolding leave
  Keyed-leave pid x p v = IsKeyed-remove p.procs pid v
