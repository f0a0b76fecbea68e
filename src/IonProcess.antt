-- ===== src/IonProcess.antt =====
-- src/pyon/ion/process.py, class IonProcessThread: the queue through which a process makes its calls one
-- at a time. This module has the state and its clock; IonProcess/Control.antt has the queue and the
-- loop that serves it, IonProcess/Heartbeat.antt the check on that loop.
pub mod Times
pub mod Control
mod Ascending
pub mod Fifo
pub mod Ordering
pub mod Answering
pub mod Busy
pub mod Heartbeat
pub mod Stuck
mod Tests
use scioncc.Prelude.{ℕ, Option, none, some, List, []}
use scioncc.Prelude.Dict
use scioncc.Exceptions.{Raised}
use scioncc.IonProcess.Times.{ProcTimes}

-- What an AsyncResult is set to: a value, the None of a call that raised, or the False of a cancelled
-- one.
pub data Answer (V : Type 0) : Type 0 where
  value : V → Answer V
  no_value : Answer V
  cancelled : Answer V

-- How a call ends.
pub data Outcome (Stack V : Type 0) : Type 0 where
  returned : V → Outcome Stack V
  raised : Raised Stack → Outcome Stack V
  interrupted : Outcome Stack V

-- An entry of the queue: the greenlet that waits, its AsyncResult, and the reply-by time of the context,
-- if it has one.
pub record CallTuple : Type 0 where
  pub calling_gl : ℕ
  pub ar : ℕ
  pub reply_by : Option ℕ

-- The fields, the AsyncResults that are ready, the number of those made, and the loop's variables
-- `calltuple` and `start_proc_time` while a call runs. `kills` are the exceptions raised in callers.
pub record IonProcess (Stack V : Type 0) : Type 0 where
  pub ctrl_queue : List CallTuple
  pub results : Dict.Dict ℕ (Answer V)
  pub next_ar : ℕ
  pub ctrl_current : Option ℕ
  pub in_call : Option (CallTuple × ℕ)
  pub kills : List (ℕ × Raised Stack)
  pub errors : List (ℕ × Raised Stack)
  pub interrupts : ℕ
  pub times : ProcTimes
