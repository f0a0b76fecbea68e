-- ===== src/IonProcess/Ordering.antt =====
-- In which order the process makes its calls.
use scioncc.Prelude.{
  ℕ, ◌≤◌, ◌≡◌, String, nat_eq, Option, none, List, [], ◌∷◌, ◌++◌, inl, inr, Bool-cases,
  Option-cases, append-nil, List-cases, if◌then◌else◌,
}
use scioncc.Exceptions.{Raised}
use scioncc.IonProcess.{Outcome, CallTuple, IonProcess}
use scioncc.IonProcess.Times.{record_proc_time}
use scioncc.IonProcess.Control.{
  init, routing_call, cancel_or_abort_call, is_expired, ready, take, begin, settle, finish,
}
use scioncc.IonProcess.Fifo.{
  IsFifo, init-IsFifo, routing_call-IsFifo, frame-IsFifo, cancel-IsFifo, skipped-IsFifo,
  called-IsFifo, settle-IsFifo, answered-IsFifo,
}

module _ {Stack V : Type 0} where
  -- The call that a round makes.
  abbrev made_by : ℕ → CallTuple → IonProcess Stack V → List ℕ
  made_by now i p = if is_expired now i.reply_by then [] else if ready i.ar p then [] else i.ar ∷ []

  abbrev pub called : ℕ → IonProcess Stack V → List ℕ
  called now p = elim p.ctrl_queue [ [] ↦ [] | i ∷ rest ↦ made_by now i p ]

  -- The states that a process comes to, with the calls that it has made and the time: other greenlets
  -- queue and cancel calls at any point, and one round of the loop follows another.
  pub data Reaches (here : Stack) (describe : Raised Stack → String)
      : IonProcess Stack V → List ℕ → ℕ → Type 0 where
    starts : (now : ℕ) → Reaches here describe (init now) [] now
    routes :
        {p : IonProcess Stack V} {made : List ℕ} {now : ℕ} (calling_gl : ℕ) (reply_by : Option ℕ)
        → Reaches here describe p made now
        → Reaches here describe (routing_call calling_gl reply_by p).1 made now
    cancels :
        {p : IonProcess Stack V} {made : List ℕ} {now : ℕ} (ar : ℕ)
        → Reaches here describe p made now
        → Reaches here describe (cancel_or_abort_call ar p) made now
    begins :
        {p : IonProcess Stack V} {made : List ℕ} {now : ℕ} (later : ℕ)
        → now ≤ later
        → p.in_call ≡ none
        → Reaches here describe p made now
        → Reaches here describe (begin here later p) (made ++ called later p) later
    finishes :
        {p : IonProcess Stack V} {made : List ℕ} {now : ℕ} (outcome : Outcome Stack V) (later : ℕ)
        → now ≤ later
        → Reaches here describe p made now
        → Reaches here describe (finish here describe outcome later p) made later

  take-IsFifo :
      (here : Stack) (p : IonProcess Stack V) (made : List ℕ) (i : CallTuple)
      (rest : List CallTuple) (now : ℕ)
      → p.ctrl_queue ≡ i ∷ rest
      → IsFifo p made
      → IsFifo (take here now i (record p { ctrl_queue = rest })) (made ++ made_by now i p)
  unfolding take
  take-IsFifo here p made i rest now e f = elim (Bool-cases (is_expired now i.reply_by)) [
    | inl late ↦
        rw (late, append-nil made)
          (frame-IsFifo (record p { ctrl_queue = rest }) made p.ctrl_current _ p.errors p.interrupts
            p.times (skipped-IsFifo p made i rest e f))
    | inr soon ↦ elim (Bool-cases (ready i.ar p)) [
      | inl r ↦ rw (soon, r, append-nil made) (skipped-IsFifo p made i rest e f)
      | inr r ↦ rw (soon, r) (called-IsFifo p made i rest now e r f)
    ]
  ]

  begin-IsFifo :
      (here : Stack) (p : IonProcess Stack V) (made : List ℕ) (now : ℕ)
      → IsFifo p made
      → IsFifo (begin here now p) (made ++ called now p)
  unfolding begin
  begin-IsFifo here p made now f = elim (List-cases p.ctrl_queue) [
    | inl e ↦ rw (begin, e, append-nil made) f
    | inr (i, rest, e) ↦
        rw (begin, e)
          (take-IsFifo here (record p { times = record_proc_time now p.times }) made i rest now e
            (frame-IsFifo p made p.ctrl_current p.kills p.errors p.interrupts
              (record_proc_time now p.times) f))
  ]

  finish-IsFifo :
      (here : Stack) (describe : Raised Stack → String) (p : IonProcess Stack V) (made : List ℕ)
      (outcome : Outcome Stack V) (now : ℕ)
      → IsFifo p made
      → IsFifo (finish here describe outcome now p) made
  unfolding finish
  finish-IsFifo here describe p made outcome now f = elim (Option-cases p.in_call) [
    | inl e ↦ rw (finish, e) f
    | inr ((i, start), e) ↦
        let (g, d, _) = settle-IsFifo here describe p made i outcome f in
        rw (finish, e)
          (answered-IsFifo (settle here describe i outcome p).1 made i.ar
            (settle here describe i outcome p).0 _ d g)
  ]

  -- In every state that a process comes to, the calls that were made and behind them those that wait
  -- stand in the order in which they were queued, none twice; and a call that was cancelled while it
  -- waited was not made.
  pub Reaches-IsFifo :
      (here : Stack) (describe : Raised Stack → String) {p : IonProcess Stack V} {made : List ℕ}
      {now : ℕ}
      → Reaches here describe p made now
      → IsFifo p made
  Reaches-IsFifo here describe (starts now) = init-IsFifo now
  Reaches-IsFifo here describe (routes calling_gl reply_by r) =
      routing_call-IsFifo _ _ calling_gl reply_by (Reaches-IsFifo here describe r)
  Reaches-IsFifo here describe (cancels ar r) =
      cancel-IsFifo _ _ ar (Reaches-IsFifo here describe r)
  Reaches-IsFifo here describe (begins later h idle r) =
      begin-IsFifo here _ _ later (Reaches-IsFifo here describe r)
  Reaches-IsFifo here describe (finishes outcome later h r) =
      finish-IsFifo here describe _ _ outcome later (Reaches-IsFifo here describe r)
