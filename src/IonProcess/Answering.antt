-- ===== src/IonProcess/Answering.antt =====
-- Every queued call is answered.
use mathlib.Core.Path.{subst}
use mathlib.Core.List.{map-append}
use scioncc.Prelude.{
  ℕ, ◌≤◌, ◌≡◌, ◌⊎◌, refl, sym, ap, String, true, nat_eq, none, some, List, [], ◌∷◌, map, In,
  In-append_left, In-append_right, inl, inr, Bool-cases, Option-cases, List-cases, ◌∙◌, length,
  arith, eq_iff,
}
use scioncc.Prelude.Dict
use scioncc.Exceptions.{Raised}
use scioncc.IonProcess.{Answer, Outcome, returned, raised, interrupted, CallTuple, IonProcess}
use scioncc.IonProcess.Times.{record_proc_time}
use scioncc.IonProcess.Control.{
  is_expired, ready, set_result, kill, take, begin, settle, finish, control_flow,
}

module _ {Stack V : Type 0} where
  -- Its AsyncResult is set, or an exception was raised in the greenlet that waits.
  abbrev pub IsAnswered : CallTuple → IonProcess Stack V → Type 0
  IsAnswered i p = (ready i.ar p ≡ true) ⊎ In i.calling_gl (map (λ k. k.0) p.kills)

  IsAnswered-set :
      (i : CallTuple) (p : IonProcess Stack V) (ar : ℕ) (answer : Answer V)
      → IsAnswered i p
      → IsAnswered i (set_result ar answer p)
  IsAnswered-set i p ar answer (inl r) = inl (ground (arith, Dict.get-put p.results ar i.ar answer))
  IsAnswered-set i p ar answer (inr k) = inr k

  IsAnswered-kill :
      (i : CallTuple) (p : IonProcess Stack V) (gl : ℕ) (e : Raised Stack)
      → IsAnswered i p
      → IsAnswered i (kill gl e p)
  IsAnswered-kill i p gl e (inl r) = inl r
  IsAnswered-kill i p gl e (inr k) =
      inr (rw map-append (In-append_left i.calling_gl (map (λ k. k.0) p.kills) (gl ∷ []) k))

  IsAnswered-once :
      (p q : IonProcess Stack V) (j : CallTuple) (start : ℕ)
      → (IsAnswered j p → IsAnswered j q)
      → (p.in_call ≡ some (j, start) → ready j.ar q ≡ true)
      → IsAnswered j p ⊎ (p.in_call ≡ some (j, start))
      → IsAnswered j q
  IsAnswered-once p q j start k d (inl a) = k a
  IsAnswered-once p q j start k d (inr r) = inl (d r)

  module _ (here : Stack) (describe : Raised Stack → String) where
    settle-IsAnswered :
        (i j : CallTuple) (outcome : Outcome Stack V) (p : IonProcess Stack V)
        → IsAnswered i p
        → IsAnswered i (settle here describe j outcome p).1
    settle-IsAnswered i j (returned v) p h = h
    settle-IsAnswered i j interrupted p h = h
    settle-IsAnswered i j (raised e) p (inl r) = inl r
    settle-IsAnswered i j (raised e) p (inr k) = IsAnswered-kill i p j.calling_gl _ (inr k)

    settle-queue :
        (j : CallTuple) (outcome : Outcome Stack V) (p : IonProcess Stack V)
        → (settle here describe j outcome p).1.ctrl_queue ≡ p.ctrl_queue
    settle-queue j (returned v) p = refl
    settle-queue j interrupted p = refl
    settle-queue j (raised e) p = refl

    -- A round of the loop after `begin`.
    finish-kept :
        (outcome : Outcome Stack V) (now : ℕ) (p : IonProcess Stack V)
        → let q = finish here describe outcome now p in
          (q.in_call ≡ none)
          × (q.ctrl_queue ≡ p.ctrl_queue)
          × ((i : CallTuple) → IsAnswered i p → IsAnswered i q)
          × ((i : CallTuple) (start : ℕ) → p.in_call ≡ some (i, start) → ready i.ar q ≡ true)
    unfolding finish
    finish-kept outcome now p = elim (Option-cases p.in_call) [
      | inl e ↦ rw (finish, e) (e, refl, λ i h. h, λ i start h. cc)
      | inr ((j, s), e) ↦
          rw (finish, e)
            (
              refl,
              settle-queue j outcome p,
              λ i h.
                  IsAnswered-set i (settle here describe j outcome p).1 j.ar
                    (settle here describe j outcome p).0 (settle-IsAnswered i j outcome p h),
              λ i start h.
                  let q : j.ar ≡ i.ar = ground (arith, h) in
                  let r = (settle here describe j outcome p) in
                  ground (arith, Dict.get-put r.1.results j.ar i.ar r.0, eq_iff j.ar i.ar),
            )
    ]

    take-kept :
        (now : ℕ) (j : CallTuple) (p : IonProcess Stack V)
        → let q = take here now j p in
          (q.ctrl_queue ≡ p.ctrl_queue)
          × ((i : CallTuple) → IsAnswered i p → IsAnswered i q)
          × (IsAnswered j q ⊎ (q.in_call ≡ some (j, now)))
    unfolding take
    take-kept now j p = elim (Bool-cases (is_expired now j.reply_by)) [
      | inl late ↦ rw late (
        refl,
        λ i h. IsAnswered-kill i p j.calling_gl _ h,
        inl (
            inr (
              rw map-append (
                In-append_right j.calling_gl (map (λ k. k.0) p.kills) (j.calling_gl ∷ [])
                  (inl refl)))),
      )
      | inr soon ↦ elim (Bool-cases (ready j.ar p)) [
        | inl r ↦ rw (soon, r) (refl, λ i h. h, inl (inl r))
        | inr r ↦ rw (soon, r) (refl, λ i h. h, inr refl)
      ]
    ]

    -- One round, on a queue with a first entry.
    round-kept :
        (start end : ℕ) (outcome : Outcome Stack V) (j : CallTuple) (rest : List CallTuple)
        (p : IonProcess Stack V)
        → p.ctrl_queue ≡ j ∷ rest
        → let q = finish here describe outcome end (begin here start p) in
          (q.in_call ≡ none)
          × (q.ctrl_queue ≡ rest)
          × ((i : CallTuple) → IsAnswered i p → IsAnswered i q)
          × IsAnswered j q
    unfolding begin
    round-kept start end outcome j rest p e =
        let p' = record p { ctrl_queue = rest; times = record_proc_time start p.times } in
        let taken = take here start j p' in
        let (tq, tk, ts) = take-kept start j p' in
        let (fi, fq, fk, fd) = finish-kept outcome end taken in
        rw (begin, e)
          (
            fi,
            fq ∙ tq,
            λ i h. fk i (tk i h),
            IsAnswered-once taken (finish here describe outcome end taken) j start (fk j)
                (fd j start) ts,
          )

    begin-empty : (start : ℕ) (p : IonProcess Stack V) → p.ctrl_queue ≡ [] → begin here start p ≡ p
    unfolding begin
    begin-empty start p e = ground arith

    finish-idle :
        (end : ℕ) (outcome : Outcome Stack V) (p : IonProcess Stack V)
        → p.in_call ≡ none
        → finish here describe outcome end p ≡ p
    unfolding finish
    finish-idle end outcome p idle = ground arith

    empty-kept :
        (start end : ℕ) (outcome : Outcome Stack V) (p : IonProcess Stack V)
        → p.ctrl_queue ≡ []
        → p.in_call ≡ none
        → finish here describe outcome end (begin here start p) ≡ p
    empty-kept start end outcome p e idle =
        ap (finish here describe outcome end) (begin-empty start p e)
        ∙ finish-idle end outcome p idle

    -- What is answered stays so.
    control_flow-kept :
        (rounds : List (ℕ × Outcome Stack V × ℕ)) (p : IonProcess Stack V) (i : CallTuple)
        → p.in_call ≡ none
        → IsAnswered i p
        → IsAnswered i (control_flow here describe rounds p)
    unfolding control_flow
    control_flow-kept [] p i idle h = h
    control_flow-kept ((start, outcome, end) ∷ rounds) p i idle h = elim (List-cases p.ctrl_queue) [
      | inl e ↦
          subst (λ q. IsAnswered i (control_flow here describe rounds q))
            (sym (empty-kept start end outcome p e idle)) (control_flow-kept rounds p i idle h)
      | inr (j, rest, e) ↦
          let (idle', _, k, _) = round-kept start end outcome j rest p e in
          control_flow-kept rounds (finish here describe outcome end (begin here start p)) i idle'
            (k i h)
    ]

    -- Where no call runs, as many rounds of the loop as there are entries in the queue answer each of
    -- them: its AsyncResult is set, or an exception is raised in the greenlet that waits for it.
    pub control_flow-IsAnswered :
        (rounds : List (ℕ × Outcome Stack V × ℕ)) (p : IonProcess Stack V) (i : CallTuple)
        → p.in_call ≡ none
        → length p.ctrl_queue ≤ length rounds
        → In i p.ctrl_queue
        → IsAnswered i (control_flow here describe rounds p)
    unfolding control_flow
    control_flow-IsAnswered [] p i idle enough q = elim (List-cases p.ctrl_queue) [
      | inl e ↦ absurd (subst (In i) e q)
      | inr (j, rest, e) ↦ absurd (omega (arith, ap length e))
    ]
    control_flow-IsAnswered ((start, outcome, end) ∷ rounds) p i idle enough q =
        elim (List-cases p.ctrl_queue) [
          | inl e ↦ absurd (subst (In i) e q)
          | inr (j, rest, e) ↦
              let (idle', left, k, a) = round-kept start end outcome j rest p e in
              let p' = finish here describe outcome end (begin here start p) in
              elim (subst (In i) e q) [
                | inl first ↦ control_flow-kept rounds p' i idle' (rw first a)
                | inr later ↦
                    control_flow-IsAnswered rounds p' i idle'
                      (omega (arith, ap length e, ap length left)) (subst (In i) (sym left) later)
              ]
        ]
