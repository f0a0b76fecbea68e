-- ===== src/IonProcess/Heartbeat.antt =====
-- src/pyon/ion/process.py: `heartbeat`, by which a supervisor sees whether the process is stuck. The
-- clock's text is kept as the number that the code reads from it; the stack of the control thread is of
-- any type that can be compared.
use scioncc.Prelude.{
  ℕ, ◌+◌, ◌*◌, Bool, true, false, not, ◌==◌, ◌&&◌, ltb, leb, Eq, nat_eq, option_eq, Option, none,
  some, List, [], ◌∷◌, Result, ok, err, if◌then◌else◌,
}

-- `container.timeout.heartbeat_proc_count_threshold` and `heartbeat_proc_time_threshold`
pub record Thresholds : Type 0 where
  pub proc_count : ℕ
  pub proc_time : ℕ

-- What a heartbeat reads: the AsyncResult of the current call, the control thread's stack, the clock.
pub record Beat (Frames : Type 0) : Type 0 where
  pub ctrl_current : Option ℕ
  pub stack : Frames
  pub now : ℕ

-- `_heartbeat_op`, `_heartbeat_stack`, `_heartbeat_time` and `_heartbeat_count`
pub record Heartbeat (Frames : Type 0) : Type 0 where
  pub op : Option ℕ
  pub stack : Option Frames
  pub time : Option ℕ
  pub count : ℕ

-- The TypeError of `int(None)`
pub data HeartbeatError : Type 0 where
  type_error : HeartbeatError

-- A listener with whether `_listener_map` has it, whether its greenlet is dead and whether it is ready.
pub record Listener : Type 0 where
  pub is_mapped : Bool
  pub dead : Bool
  pub is_ready : Bool

unfoldable pub listeners_ok : List Listener → Bool
listeners_ok [] = true
listeners_ok (l ∷ listeners) =
    let rest = listeners_ok listeners in
    if not (l.is_mapped && (not l.dead && l.is_ready)) then false else rest

module _ {Frames : Type 0} where
  unfoldable pub init : Heartbeat Frames
  init = record { op = none; stack = none; time = none; count = 0 }

  module _ (t : Thresholds) where
    -- Neither seen too often nor for too long.
    unfoldable pub in_time : ℕ → Heartbeat Frames → Result HeartbeatError Bool
    in_time now h = if ltb t.proc_count h.count then ok false else elim h.time [
      | none ↦ err type_error
      | some since ↦ ok (not (leb (since + t.proc_time * 1000) now))
    ]

    module _ ⦃e : Eq Frames⦄ where
      -- A call is being made.
      unfoldable pub beat :
          ℕ → Frames → ℕ → Heartbeat Frames → Result HeartbeatError Bool × Heartbeat Frames
      unfolding in_time
      beat ar st now h =
          if some ar == h.op
          then (if some st == h.stack
              then (let h' = record h { count = h.count + 1 } in (in_time now h', h'))
              else (ok true, record h { count = 1; stack = some st; time = some now }))
          else (ok true, record { op = some ar; count = 1; time = some now; stack = some st })

      -- The third of the values that `heartbeat` returns, and the fields that it leaves.
      unfoldable pub heartbeat :
          Beat Frames → Heartbeat Frames → Result HeartbeatError Bool × Heartbeat Frames
      unfolding beat
      heartbeat b h = elim b.ctrl_current [
        | none ↦ (ok true, record h { op = none; count = 0 })
        | some ar ↦ beat ar b.stack b.now h
      ]
