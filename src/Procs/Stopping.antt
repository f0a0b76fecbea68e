-- ===== src/Procs/Stopping.antt =====
-- src/pyon/container/procs.py: what stopping the process manager leaves in the registry.
use scioncc.Prelude.{
  ◌≡◌, refl, sym, ap, ◌∙◌, String, Bool, true, false, ◌||◌, ◌⊎◌, Bool-cases, Option-cases, inl, inr,
  Option, none, some, List, [], ◌∷◌, map, ◌==◌, eq_iff, nat_eq, string_eq, if◌then◌else◌, ok, err,
  arith,
}
use scioncc.Prelude.Dict
use scioncc.Prelude.Dict.{get-remove}
use scioncc.Procs.{Process, ProcError, Services, ProcManager, values, insert_by_start, latest_first}
use scioncc.Procs.Terminating.{terminate_process, terminate_all, stop_processes}
use scioncc.Procs.Quitting.{IsWilling, registry, without, terminate_process_known}

-- The process with this id is one of them.
abbrev named : String → List Process → Bool
named k [] = false
named k (x ∷ xs) = (x.id == k) || named k xs

named-insert :
    (k : String) (x : Process) (xs : List Process)
    → named k (insert_by_start x xs) ≡ named k (x ∷ xs)
unfolding insert_by_start
named-insert k x [] = refl
named-insert k x (y ∷ ys) = ground (arith, named-insert k x ys)

named-latest_first : (k : String) (xs : List Process) → named k (latest_first xs) ≡ named k xs
unfolding latest_first
named-latest_first k [] = refl
named-latest_first k (x ∷ xs) =
    ground (arith, named-insert k x (latest_first xs), named-latest_first k xs)

-- Every process stands under its own id.
abbrev pub IsKeyed : Dict.Dict String Process → Type 0
IsKeyed d = (k : String) (x : Process) → Dict.get d k ≡ some x → x.id ≡ k

named-values :
    (d : Dict.Dict String Process) (k : String) (x : Process)
    → x.id ≡ k
    → Dict.get d k ≡ some x
    → named k (map (λ e. e.1) d) ≡ true
unfolding Dict.get
named-values [] k x own h = ground arith
named-values ((j, y) ∷ d) k x own h =
    ground (arith, named-values d k x own, eq_iff j k, eq_iff x.id k, eq_iff y.id k)

-- What a process whose `quit` returns, or raises, leaves of its entry.
abbrev pub unless_quits : (Process → Bool) → Option Process → Option Process
unless_quits quits none = none
unless_quits quits (some x) = if quits x then none else some x

-- Of each process it is known whether its `quit` returns or raises.
pub record IsDecided {W : Type 0} (sv : Services W) (quits : Process → Bool) : Type 0 where
  pub returns : (x : Process) → quits x ≡ true → (w : W) → (sv.quit x w).0 ≡ ok tt
  pub raises :
      (x : Process) → quits x ≡ false → (e : ProcError) × ((w : W) → (sv.quit x w).0 ≡ err e)

get-same :
    (d : Dict.Dict String Process) (j k : String) → (j == k) ≡ true → Dict.get d k ≡ Dict.get d j
get-same d j k h = ap (Dict.get d) (sym ((eq_iff j k).0 h))

module _ {W : Type 0} (sv : Services W) (t : IsWilling sv) (quits : Process → Bool)
    (decided : IsDecided sv quits) where
  -- Where the services answer and no state-change callback raises, terminating a process that is
  -- known returns if its `quit` does, with exactly it and its name taken out of the registry; if its
  -- `quit` raises, so does the call, and the registry is as it was.
  pub terminate_process-registry :
      (pid : String) (notify : Bool) (p : ProcManager W) (x : Process)
      → Dict.get p.procs pid ≡ some x
      → ((quits x ≡ true)
          × ((terminate_process sv pid notify p).0 ≡ ok tt)
          × (registry (terminate_process sv pid notify p).1 ≡ without sv t pid x p))
        ⊎ ((quits x ≡ false)
            × (e : ProcError) × ((terminate_process sv pid notify p).0 ≡ err e)
            × (registry (terminate_process sv pid notify p).1 ≡ registry p))
  terminate_process-registry pid notify p x known =
      let (quit, raise_) = terminate_process_known sv t pid notify p x known in
      elim (Bool-cases (quits x)) [
        | inl q ↦ (let (a, b) = quit (decided.returns x q) in inl (q, a, b))
        | inr q ↦ (let (e, r) = decided.raises x q in let (a, b) = raise_ e r in inr (q, e, a, b))
      ]

  unknown_process_kept :
      (pid : String) (p : ProcManager W)
      → Dict.get p.procs pid ≡ none
      → (terminate_process sv pid true p).1 ≡ p
  unfolding terminate_process
  unknown_process_kept pid p unknown = rw (unknown, terminate_process) refl

  twice : (o : Option Process) → unless_quits quits (unless_quits quits o) ≡ unless_quits quits o
  twice none = refl
  twice (some x) = ground arith

  terminated-procs :
      (pid k : String) (p : ProcManager W)
      → Dict.get (terminate_process sv pid true p).1.procs k
        ≡ (if pid == k then unless_quits quits (Dict.get p.procs k) else Dict.get p.procs k)
  terminated-procs pid k p = elim (Option-cases (Dict.get p.procs pid)) [
    | inl unknown ↦
        ground (arith, unknown, unknown_process_kept pid p unknown, get-same p.procs pid k)
    | inr (x, known) ↦ elim (Bool-cases (quits x)) [
      | inl q ↦
          (let done = (terminate_process_known sv t pid true p x known).0 (decided.returns x q) in
            ap (λ r. Dict.get r.0 k) done.1
            ∙ ground (arith, q, known, get-remove p.procs pid k, get-same p.procs pid k))
      | inr q ↦
          (let (e, r) = decided.raises x q in
            let done = (terminate_process_known sv t pid true p x known).1 e r in
            ap (λ s. Dict.get s.0 k) done.1 ∙ ground (arith, q, known, get-same p.procs pid k))
    ]
  ]

  all-procs :
      (xs : List Process) (k : String) (p : ProcManager W)
      → Dict.get (terminate_all sv xs p).procs k
        ≡ (if named k xs then unless_quits quits (Dict.get p.procs k) else Dict.get p.procs k)
  unfolding terminate_all
  all-procs [] k p = refl
  all-procs (x ∷ xs) k p = ground (
    arith,
    all-procs xs k (terminate_process sv x.id true p).1,
    terminated-procs x.id k p,
    twice (Dict.get p.procs k),
  )

  -- Where the services answer, no state-change callback raises and every process stands under its own
  -- id, stopping the manager ends with exactly those processes in the registry whose `quit` raises.
  pub stop_processes_left :
      (p : ProcManager W) (k : String)
      → IsKeyed p.procs
      → Dict.get (stop_processes sv p).procs k ≡ unless_quits quits (Dict.get p.procs k)
  unfolding stop_processes
  stop_processes_left p k keyed =
      let all = all-procs (latest_first (values p)) k p in
      elim (Option-cases (Dict.get p.procs k)) [
        | inl missing ↦ ground (arith, all, missing)
        | inr (x, known) ↦
            (let there =
                named-latest_first k (values p)
                ∙ named-values p.procs k x (keyed k x known) known in
              ground (arith, all, known, there))
      ]
