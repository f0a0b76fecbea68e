-- ===== src/IonProcess/Control.antt =====
-- src/pyon/ion/process.py: `_routing_call`, the calls that cancel, and `_control_flow`. One round of the
-- loop is in two parts, `begin` up to the call and `finish` from its end, since other greenlets run
-- while the call does. Statistics that are only logged or handed to a callback are
-- left out, and so are the numbers in the text of the timeout.
use scioncc.Prelude.{
  ℕ, suc, String, Bool, true, false, ◌==◌, nat_eq, string_eq, ◌||◌, leb, is_some, Option, none,
  some, List, [], ◌∷◌, ◌++◌, if◌then◌else◌,
}
use scioncc.Prelude.Dict
use scioncc.Exceptions.{Raised, ion, python, timeout, container_error, construct}
use scioncc.IonProcess.{
  Answer, value, no_value, cancelled, Outcome, returned, raised, interrupted, CallTuple, IonProcess,
}
use scioncc.IonProcess.Times.{init as init_times, record_proc_time, compute_proc_stats}

-- The AsyncResult is in an entry of the queue.
unfoldable pub queued : List CallTuple → ℕ → Bool
queued [] ar = false
queued (i ∷ rest) ar = (i.ar == ar) || queued rest ar

module _ {Stack V : Type 0} where
  -- The process as `target` starts it.
  unfoldable pub init : ℕ → IonProcess Stack V
  unfolding init_times
  init now = record {
    ctrl_queue = [];
    results = Dict.empty;
    next_ar = 0;
    ctrl_current = none;
    in_call = none;
    kills = [];
    errors = [];
    interrupts = 0;
    times = init_times now;
  }

  -- `_routing_call`, by the greenlet `calling_gl`
  unfoldable pub routing_call : ℕ → Option ℕ → IonProcess Stack V → ℕ × IonProcess Stack V
  routing_call calling_gl reply_by p =
      let i : CallTuple = record { calling_gl = calling_gl; ar = p.next_ar; reply_by = reply_by } in
      (p.next_ar, record p { ctrl_queue = p.ctrl_queue ++ i ∷ []; next_ar = suc p.next_ar })

  abbrev pub has_pending_call : ℕ → IonProcess Stack V → Bool
  has_pending_call ar p = queued p.ctrl_queue ar

  -- `ar.ready()`
  abbrev pub ready : ℕ → IonProcess Stack V → Bool
  ready ar p = is_some (Dict.get p.results ar)

  -- `ar.set(answer)`
  abbrev pub set_result : ℕ → Answer V → IonProcess Stack V → IonProcess Stack V
  set_result ar answer p = record p { results = Dict.put p.results ar answer }

  -- `_cancel_pending_call`
  unfoldable pub cancel_pending_call : ℕ → IonProcess Stack V → Bool × IonProcess Stack V
  unfolding queued
  cancel_pending_call ar p =
      if has_pending_call ar p then (true, set_result ar cancelled p) else (false, p)

  -- `cancel_or_abort_call`
  unfoldable pub cancel_or_abort_call : ℕ → IonProcess Stack V → IonProcess Stack V
  unfolding cancel_pending_call
  cancel_or_abort_call ar p =
      let (was_pending, p') = cancel_pending_call ar p in
      if was_pending || ready ar p' then p' else record p' { interrupts = suc p'.interrupts }

  -- `calling_gl.kill(exception=e, block=False)`
  abbrev pub kill : ℕ → Raised Stack → IonProcess Stack V → IonProcess Stack V
  kill gl e p = record p { kills = p.kills ++ (gl, e) ∷ [] }

abbrev pub is_expired : ℕ → Option ℕ → Bool
is_expired now none = false
is_expired now (some reply_by) = leb reply_by now

module _ {Stack : Type 0} (here : Stack) where
  -- What is raised in the caller for an exception of the call: TypeError and application exceptions as
  -- they are, others in a ContainerError.
  unfoldable pub forward : (Raised Stack → String) → Raised Stack → Raised Stack
  unfolding construct
  forward describe (ion e) = ion e
  forward describe (python t m) =
      if t == "TypeError"
      then python t m
      else ion (construct here container_error (describe (python t m)))

-- `self._errors.append(...)`, for the exceptions that are wrapped
abbrev wraps : {Stack : Type 0} → Raised Stack → Bool
wraps (ion e) = false
wraps (python t m) = if t == "TypeError" then false else true

module _ {Stack V : Type 0} (here : Stack) where
  -- The entry is taken, and its call made unless it is late or cancelled.
  unfoldable pub take : ℕ → CallTuple → IonProcess Stack V → IonProcess Stack V
  unfolding construct
  take now i p =
      if is_expired now i.reply_by
      then kill i.calling_gl (ion (construct here timeout "Reply-by time has already occurred")) p
      else if ready i.ar p
      then p
      else record p { ctrl_current = some i.ar; in_call = some (i, now) }

  -- A round of the loop up to the call, at the time `now`.
  unfoldable pub begin : ℕ → IonProcess Stack V → IonProcess Stack V
  unfolding take record_proc_time
  begin now p = elim p.ctrl_queue [
    | [] ↦ p
    | i ∷ rest ↦ take now i (record p { ctrl_queue = rest; times = record_proc_time now p.times })
  ]

  abbrev handle_exception :
      (Raised Stack → String) → CallTuple → Raised Stack → IonProcess Stack V → IonProcess Stack V
  handle_exception describe i e p = record (kill i.calling_gl (forward here describe e) p) {
    errors = if wraps e then p.errors ++ (i.ar, e) ∷ [] else p.errors;
  }

  -- How the call ended, in the caller and in the result to set.
  abbrev pub settle :
      (Raised Stack → String)
      → CallTuple
      → Outcome Stack V
      → IonProcess Stack V
      → Answer V × IonProcess Stack V
  settle describe i (returned v) p = (value v, p)
  settle describe i (raised e) p = (no_value, handle_exception describe i e p)
  settle describe i interrupted p = (no_value, p)

  -- The rest of the round after a call that ended at the time `now`; `describe` is the text of a
  -- wrapped exception.
  unfoldable pub finish :
      (Raised Stack → String) → Outcome Stack V → ℕ → IonProcess Stack V → IonProcess Stack V
  unfolding forward compute_proc_stats
  finish describe outcome now p = elim p.in_call [
    | none ↦ p
    | some (i, start_proc_time) ↦
        let (res, q) = settle describe i outcome p in
        set_result i.ar res (record q {
          times = compute_proc_stats start_proc_time now q.times;
          ctrl_current = none;
          in_call = none;
        })
  ]

  -- The loop over rounds that begin and end at the given times, as their calls end.
  unfoldable pub control_flow :
      (Raised Stack → String)
      → List (ℕ × Outcome Stack V × ℕ)
      → IonProcess Stack V
      → IonProcess Stack V
  unfolding begin finish
  control_flow describe [] p = p
  control_flow describe ((start, outcome, end) ∷ rounds) p =
      control_flow describe rounds (finish describe outcome end (begin start p))
