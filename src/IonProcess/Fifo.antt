-- ===== src/IonProcess/Fifo.antt =====
-- The order of the queue and of the calls made, over the parts of the process's operations.
use mathlib.Core.Path.{subst}
use mathlib.Core.List.{map-append}
use scioncc.Prelude.{
  ℕ, suc, ◌<◌, ◌≡◌, ◌≢◌, refl, sym, String, Bool, true, false, ◌==◌, nat_eq, eq_iff, Option, none,
  some, List, [], ◌∷◌, ◌++◌, map, In, In-append, In-append_right, inl, inr, Bool-cases,
  append-append, arith, if◌then◌else◌,
}
use scioncc.Prelude.Dict
use scioncc.Exceptions.{Raised}
use scioncc.IonProcess.{
  Answer, cancelled, Outcome, returned, raised, interrupted, CallTuple, IonProcess,
}
use scioncc.IonProcess.Times.{ProcTimes}
use scioncc.IonProcess.Ascending.{
  All, All-snoc, All-map, All-drop, IsAscending, IsAscending-snoc, IsAscending-drop,
  IsAscending-disjoint,
}
use scioncc.IonProcess.Control.{queued, init, routing_call, cancel_or_abort_call, ready, settle}

abbrev pub pending : List CallTuple → List ℕ
pending = map (λ i. i.ar)

queued-In : (q : List CallTuple) (ar : ℕ) → queued q ar ≡ true → In ar (pending q)
unfolding queued
queued-In [] ar h = cc
queued-In (i ∷ rest) ar h = ground (arith, eq_iff i.ar ar, queued-In rest ar)

module _ {Stack V : Type 0} where
  -- The calls made, and after them those that wait, stand in the order of their AsyncResults, and no
  -- cancelled one is among those made.
  pub record IsFifo (p : IonProcess Stack V) (made : List ℕ) : Type 0 where
    pub ascending : IsAscending (made ++ pending p.ctrl_queue)
    pub bounded : All (λ ar. ar < p.next_ar) (made ++ pending p.ctrl_queue)
    pub uncancelled : (ar : ℕ) → Dict.get p.results ar ≡ some cancelled → ¬ In ar made
    pub running : (i : CallTuple) (t : ℕ) → p.in_call ≡ some (i, t) → In i.ar made

  pub init-IsFifo : (now : ℕ) → IsFifo (init now) []
  unfolding init Dict.get
  init-IsFifo now = record {
    ascending = tt;
    bounded = tt;
    uncancelled = λ ar h. λ i. i;
    running = λ i t h. cc;
  }

  pub routing_call-IsFifo :
      (p : IonProcess Stack V) (made : List ℕ) (calling_gl : ℕ) (reply_by : Option ℕ)
      → IsFifo p made
      → IsFifo (routing_call calling_gl reply_by p).1 made
  unfolding routing_call
  routing_call-IsFifo p made calling_gl reply_by f =
      let i : CallTuple = record { calling_gl = calling_gl; ar = p.next_ar; reply_by = reply_by } in
      let e : made ++ pending (p.ctrl_queue ++ i ∷ [])
          ≡ (made ++ pending p.ctrl_queue) ++ p.next_ar ∷ [] =
        rw map-append (sym (append-append made (pending p.ctrl_queue) (p.next_ar ∷ []))) in
      record {
        ascending =
            rw e (IsAscending-snoc (made ++ pending p.ctrl_queue) p.next_ar f.ascending f.bounded);
        bounded = rw e (
            All-snoc (λ ar. ar < suc p.next_ar) (made ++ pending p.ctrl_queue) p.next_ar
              (All-map (λ ar. ar < p.next_ar) (λ ar. ar < suc p.next_ar) (λ ar h. omega arith)
                (made ++ pending p.ctrl_queue) f.bounded)
              (omega arith));
        uncancelled = f.uncancelled;
        running = f.running;
      }

  cancelled-IsFifo :
      (p : IonProcess Stack V) (made : List ℕ) (ar : ℕ)
      → queued p.ctrl_queue ar ≡ true
      → IsFifo p made
      → IsFifo (record p { results = Dict.put p.results ar cancelled }) made
  cancelled-IsFifo p made ar q f = record {
    ascending = f.ascending;
    bounded = f.bounded;
    uncancelled = λ a h. elim (Bool-cases (ar == a)) [
      | inl e ↦
          IsAscending-disjoint made (pending p.ctrl_queue) a f.ascending
            (rw (sym ((eq_iff ar a).0 e)) (queued-In p.ctrl_queue ar q))
      | inr e ↦ f.uncancelled a (ground (arith, Dict.get-put p.results ar a cancelled))
    ];
    running = f.running;
  }

  -- The other fields do not matter.
  pub frame-IsFifo :
      (p : IonProcess Stack V) (made : List ℕ) (c : Option ℕ) (k e : List (ℕ × Raised Stack))
      (n : ℕ) (t : ProcTimes)
      → IsFifo p made
      → IsFifo
          (record p { ctrl_current = c; kills = k; errors = e; interrupts = n; times = t })
          made
  frame-IsFifo p made c k e n t f = record {
    ascending = f.ascending;
    bounded = f.bounded;
    uncancelled = f.uncancelled;
    running = f.running;
  }

  interrupt-IsFifo :
      (p : IonProcess Stack V) (made : List ℕ) (b : Bool)
      → IsFifo p made
      → IsFifo (if b then p else record p { interrupts = suc p.interrupts }) made
  interrupt-IsFifo p made true f = f
  interrupt-IsFifo p made false f =
      frame-IsFifo p made p.ctrl_current p.kills p.errors (suc p.interrupts) p.times f

  pub cancel-IsFifo :
      (p : IonProcess Stack V) (made : List ℕ) (ar : ℕ)
      → IsFifo p made
      → IsFifo (cancel_or_abort_call ar p) made
  unfolding cancel_or_abort_call
  cancel-IsFifo p made ar f = elim (Bool-cases (queued p.ctrl_queue ar)) [
    | inl e ↦ rw e (cancelled-IsFifo p made ar e f)
    | inr e ↦ rw e (interrupt-IsFifo p made (ready ar p) f)
  ]

  -- A round that makes no call.
  pub skipped-IsFifo :
      (p : IonProcess Stack V) (made : List ℕ) (i : CallTuple) (rest : List CallTuple)
      → p.ctrl_queue ≡ i ∷ rest
      → IsFifo p made
      → IsFifo (record p { ctrl_queue = rest }) made
  skipped-IsFifo p made i rest e f = record {
    ascending =
        IsAscending-drop made (pending rest) i.ar
          (subst (λ q. IsAscending (made ++ pending q)) e f.ascending);
    bounded =
        All-drop (λ ar. ar < p.next_ar) made (pending rest) i.ar
          (subst (λ q. All (λ ar. ar < p.next_ar) (made ++ pending q)) e f.bounded);
    uncancelled = f.uncancelled;
    running = f.running;
  }

  pub called-IsFifo :
      (p : IonProcess Stack V) (made : List ℕ) (i : CallTuple) (rest : List CallTuple) (now : ℕ)
      → p.ctrl_queue ≡ i ∷ rest
      → ready i.ar p ≡ false
      → IsFifo p made
      → IsFifo
          (record p { ctrl_queue = rest; ctrl_current = some i.ar; in_call = some (i, now) })
          (made ++ i.ar ∷ [])
  called-IsFifo p made i rest now e r f = record {
    ascending =
        rw (append-append made (i.ar ∷ []) (pending rest))
          (subst (λ q. IsAscending (made ++ pending q)) e f.ascending);
    bounded =
        rw (append-append made (i.ar ∷ []) (pending rest))
          (subst (λ q. All (λ ar. ar < p.next_ar) (made ++ pending q)) e f.bounded);
    uncancelled = λ a h. λ m. elim (In-append a made (i.ar ∷ []) m) [
      | inl l ↦ f.uncancelled a h l
      | inr (inl e') ↦ ground (arith, h)
      | inr (inr n) ↦ n
    ];
    running = λ j t h.
        subst (λ a. In a (made ++ i.ar ∷ [])) (let q : i.ar ≡ j.ar = ground (arith, h) in q)
          (In-append_right i.ar made (i.ar ∷ []) (inl refl));
  }

  pub settle-IsFifo :
      (here : Stack) (describe : Raised Stack → String) (p : IonProcess Stack V) (made : List ℕ)
      (i : CallTuple) (outcome : Outcome Stack V)
      → IsFifo p made
      → IsFifo (settle here describe i outcome p).1 made
        × ((settle here describe i outcome p).0 ≢ cancelled)
        × ((settle here describe i outcome p).1.in_call ≡ p.in_call)
  settle-IsFifo here describe p made i (returned v) f = (f, λ e. ground arith, refl)
  settle-IsFifo here describe p made i interrupted f = (f, λ e. ground arith, refl)
  settle-IsFifo here describe p made i (raised e) f =
      (frame-IsFifo p made p.ctrl_current _ _ p.interrupts p.times f, λ e. ground arith, refl)

  pub answered-IsFifo :
      (p : IonProcess Stack V) (made : List ℕ) (ar : ℕ) (answer : Answer V) (t : ProcTimes)
      → answer ≢ cancelled
      → IsFifo p made
      → IsFifo
          (record p {
            results = Dict.put p.results ar answer;
            ctrl_current = none;
            in_call = none;
            times = t;
          })
          made
  answered-IsFifo p made ar answer t d f = record {
    ascending = f.ascending;
    bounded = f.bounded;
    uncancelled = λ a h. f.uncancelled a (ground (arith, Dict.get-put p.results ar a answer));
    running = λ i t h. cc;
  }
