-- ===== src/IonProcess/Busy.antt =====
-- The busy time of a process against the clock.
use mathlib.Core.Path.{subst}
use scioncc.Prelude.{
  ℕ, ◌+◌, ◌/◌, ◌≤◌, ◌<◌, ◌≡◌, refl, String, Option, none, some, List, inl, inr, Bool-cases,
  Option-cases, List-cases, arith,
}
use scioncc.Exceptions.{Raised}
use scioncc.IonProcess.{Outcome, returned, raised, interrupted, CallTuple, IonProcess}
use scioncc.IonProcess.Times.{
  ProcTimes, interval_length, record_proc_time, compute_proc_stats, time_stats, init as init_times,
}
use scioncc.IonProcess.Control.{
  init, routing_call, cancel_or_abort_call, cancel_pending_call, is_expired, ready, take, begin,
  settle, finish,
}
use scioncc.IonProcess.Ordering.{Reaches, starts, routes, cancels, begins, finishes}

-- The counted time fits between the start and `upto`, and the recorded values are earlier ones.
pub record IsCounted (t : ProcTimes) (upto : ℕ) : Type 0 where
  pub fits : t.start_time + t.proc_time ≤ upto
  pub prior : t.proc_time_prior ≤ t.proc_time
  pub prior2 : t.proc_time_prior2 ≤ t.proc_time_prior
  pub interval : t.proc_interval_num ≤ upto / interval_length

init-IsCounted : (now : ℕ) → IsCounted (init_times now) now
unfolding init_times
init-IsCounted now = ground arith

IsCounted-later : {t : ProcTimes} {a b : ℕ} → a ≤ b → IsCounted t a → IsCounted t b
IsCounted-later h c = omega arith

record_proc_time-IsCounted :
    (t : ProcTimes) (now : ℕ) → IsCounted t now → IsCounted (record_proc_time now t) now
unfolding record_proc_time
record_proc_time-IsCounted t now c = ground arith

record_proc_time-kept :
    (t : ProcTimes) (now : ℕ)
    → ((record_proc_time now t).proc_time ≡ t.proc_time)
      × ((record_proc_time now t).start_time ≡ t.start_time)
unfolding record_proc_time
record_proc_time-kept t now = ground arith

compute_proc_stats-IsCounted :
    (t : ProcTimes) (start now : ℕ)
    → start ≤ now
    → IsCounted t start
    → IsCounted (compute_proc_stats start now t) now
unfolding compute_proc_stats
compute_proc_stats-IsCounted t start now h c =
    ground
      (arith, record_proc_time-IsCounted t now (IsCounted-later h c), record_proc_time-kept t now)

-- While a call runs the counted time ends where the call began.
abbrev counted_upto : Option (CallTuple × ℕ) → ℕ → ℕ
counted_upto none now = now
counted_upto (some (i, start)) now = start

module _ {Stack V : Type 0} where
  pub record IsTimed (p : IonProcess Stack V) (now : ℕ) : Type 0 where
    pub counted : IsCounted p.times (counted_upto p.in_call now)
    pub begun : counted_upto p.in_call now ≤ now

  -- A part of the loop or another greenlet's call that changes neither the times nor the call.
  IsTimed-frame :
      {p q : IonProcess Stack V} {now : ℕ}
      → q.times ≡ p.times
      → q.in_call ≡ p.in_call
      → IsTimed p now
      → IsTimed q now
  IsTimed-frame e i h = record { counted = rw (e, i) h.counted; begun = rw i h.begun }

  routing_call-IsTimed :
      (p : IonProcess Stack V) (calling_gl : ℕ) (reply_by : Option ℕ) (now : ℕ)
      → IsTimed p now
      → IsTimed (routing_call calling_gl reply_by p).1 now
  unfolding routing_call
  routing_call-IsTimed p calling_gl reply_by now h = IsTimed-frame refl refl h

  cancel-IsTimed :
      (p : IonProcess Stack V) (ar now : ℕ)
      → IsTimed p now
      → IsTimed (cancel_or_abort_call ar p) now
  unfolding cancel_or_abort_call cancel_pending_call
  cancel-IsTimed p ar now h = IsTimed-frame (ground arith) (ground arith) h

  -- Where no call runs.
  idle-IsTimed :
      (p : IonProcess Stack V) (now : ℕ) → p.in_call ≡ none → IsCounted p.times now → IsTimed p now
  idle-IsTimed p now idle c = record { counted = rw idle c; begun = rw idle (omega arith) }

  take-IsTimed :
      (here : Stack) (p : IonProcess Stack V) (i : CallTuple) (now : ℕ)
      → p.in_call ≡ none
      → IsCounted p.times now
      → IsTimed (take here now i p) now
  unfolding take
  take-IsTimed here p i now idle c = elim (Bool-cases (is_expired now i.reply_by)) [
    | inl late ↦ rw late (idle-IsTimed _ now idle c)
    | inr soon ↦ elim (Bool-cases (ready i.ar p)) [
      | inl r ↦ rw (soon, r) (idle-IsTimed p now idle c)
      | inr r ↦ rw (soon, r) (record { counted = c; begun = omega arith })
    ]
  ]

  begin-IsTimed :
      (here : Stack) (p : IonProcess Stack V) (now later : ℕ)
      → now ≤ later
      → p.in_call ≡ none
      → IsTimed p now
      → IsTimed (begin here later p) later
  unfolding begin
  begin-IsTimed here p now later h idle t =
      let c =
        IsCounted-later {t = p.times} h
          (subst (λ o. IsCounted p.times (counted_upto o now)) idle t.counted) in
      elim (List-cases p.ctrl_queue) [
        | inl e ↦ rw (begin, e) (idle-IsTimed p later idle c)
        | inr (i, rest, e) ↦
            rw (begin, e)
              (take-IsTimed here
                (record p { ctrl_queue = rest; times = record_proc_time later p.times }) i later
                idle (record_proc_time-IsCounted p.times later c))
      ]

  settle-times :
      (here : Stack) (describe : Raised Stack → String) (p : IonProcess Stack V) (i : CallTuple)
      (outcome : Outcome Stack V)
      → (settle here describe i outcome p).1.times ≡ p.times
  settle-times here describe p i (returned v) = refl
  settle-times here describe p i (raised e) = refl
  settle-times here describe p i interrupted = refl

  finish-IsTimed :
      (here : Stack) (describe : Raised Stack → String) (p : IonProcess Stack V)
      (outcome : Outcome Stack V) (now later : ℕ)
      → now ≤ later
      → IsTimed p now
      → IsTimed (finish here describe outcome later p) later
  unfolding finish
  finish-IsTimed here describe p outcome now later h t = elim (Option-cases p.in_call) [
    | inl e ↦
        rw (finish, e)
          (idle-IsTimed p later e
            (IsCounted-later h (subst (λ o. IsCounted p.times (counted_upto o now)) e t.counted)))
    | inr ((i, start), e) ↦
        let began : start ≤ now = subst (λ o. counted_upto o now ≤ now) e t.begun in
        let c =
          compute_proc_stats-IsCounted p.times start later (omega arith)
            (subst (λ o. IsCounted p.times (counted_upto o now)) e t.counted) in
        rw (finish, e) (idle-IsTimed _ later refl (rw (settle-times here describe p i outcome) c))
  ]

  Reaches-IsTimed :
      (here : Stack) (describe : Raised Stack → String) {p : IonProcess Stack V} {made : List ℕ}
      {now : ℕ}
      → Reaches here describe p made now
      → IsTimed p now
  unfolding init
  Reaches-IsTimed here describe (starts now) = record {
    counted = init-IsCounted now;
    begun = omega arith;
  }
  Reaches-IsTimed here describe (routes calling_gl reply_by r) =
      routing_call-IsTimed _ calling_gl reply_by _ (Reaches-IsTimed here describe r)
  Reaches-IsTimed here describe (cancels ar r) =
      cancel-IsTimed _ ar _ (Reaches-IsTimed here describe r)
  Reaches-IsTimed here describe (begins later h idle r) =
      begin-IsTimed here _ _ later h idle (Reaches-IsTimed here describe r)
  Reaches-IsTimed here describe (finishes outcome later h r) =
      finish-IsTimed here describe _ outcome _ later h (Reaches-IsTimed here describe r)

  -- In every state that a process comes to, at any later time, busy and idle time make up the time
  -- since the start, the busy time since the prior interval is a part of the busy time, and that
  -- interval began between one and two minutes ago.
  pub time_stats_bounds :
      (here : Stack) (describe : Raised Stack → String) {p : IonProcess Stack V} {made : List ℕ}
      {now later : ℕ}
      → Reaches here describe p made now
      → now ≤ later
      → let st = time_stats later p.times in
        (st.idle_time + st.proc_time ≡ st.running_time)
        × (st.proc_time_since_prior ≤ st.proc_time)
        × (60000 ≤ st.now_since_prior)
        × (st.now_since_prior < 120000)
  unfolding time_stats
  time_stats_bounds here describe {p} {now} {later} r h =
      let t = Reaches-IsTimed here describe r in
      let c : IsCounted p.times now = IsCounted-later (omega (arith, t.begun)) t.counted in
      let c' : IsCounted p.times later = IsCounted-later h c in ground (arith, c')

-- The busy time that is reported for the time since the prior interval exceeds that time, if the last
-- call took two minutes or more and has just ended.
pub time_stats_exceeds :
    (t : ProcTimes) (start now : ℕ)
    → IsCounted t start
    → start + 120000 ≤ now
    → let st = time_stats now (compute_proc_stats start now t) in
      st.now_since_prior < st.proc_time_since_prior
unfolding time_stats compute_proc_stats record_proc_time
time_stats_exceeds t start now c h = ground (arith, c.interval)
