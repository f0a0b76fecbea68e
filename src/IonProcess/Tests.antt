-- ===== src/IonProcess/Tests.antt =====
-- A process with one call.
use scioncc.Prelude.{
  nat_eq, ℕ, ◌≡◌, ◌≤◌, ◌<◌, ◌+◌, refl, String, none, [], ◌∷◌, ◌++◌, inl, arith, false, some, ok,
}
use scioncc.Exceptions.{Raised, python}
use scioncc.IonProcess.{returned, raised, CallTuple, IonProcess}
use scioncc.IonProcess.Times.{time_stats, compute_proc_stats, init as init_times}
use scioncc.IonProcess.Control.{init, routing_call, begin, finish, control_flow}
use scioncc.IonProcess.Ordering.{Reaches, starts, routes, begins, finishes, called, Reaches-IsFifo}
use scioncc.IonProcess.Fifo.{IsFifo}
use scioncc.IonProcess.Answering.{IsAnswered, control_flow-IsAnswered}
use scioncc.IonProcess.Heartbeat.{Beat, heartbeat}
use scioncc.IonProcess.Stuck.{after, streak, oldest, heartbeat-is_stuck}
use scioncc.IonProcess.Busy.{IsCounted, time_stats_bounds, time_stats_exceeds}

program : Unit {0}
unfolding init routing_call begin finish
program = tt

abbrev describe : Raised String → String
describe e = "wrapped"

abbrev started : IonProcess String ℕ
started = init 1000

abbrev one_call : IonProcess String ℕ
one_call = (routing_call 4 none started).1

abbrev in_call : IonProcess String ℕ
in_call = begin "here" 1005 one_call

abbrev done : IonProcess String ℕ
done = finish "here" describe (returned 3) 1025 in_call

abbrev first : CallTuple
first = record { calling_gl = 4; ar = 0; reply_by = none }

run : Reaches "here" describe done ([] ++ called 1005 one_call) 1025
unfolding program
run =
    finishes (returned 3) 1025 (omega arith)
      (begins 1005 (omega arith) refl (routes 4 none (starts 1000)))

-- The theorem at this run.
Reaches-IsFifo_example : IsFifo done ([] ++ called 1005 one_call)
Reaches-IsFifo_example = Reaches-IsFifo "here" describe run

time_stats_bounds_example :
    let st = time_stats 1030 done.times in
    (st.idle_time + st.proc_time ≡ st.running_time)
    × (st.proc_time_since_prior ≤ st.proc_time)
    × (60000 ≤ st.now_since_prior)
    × (st.now_since_prior < 120000)
time_stats_bounds_example = time_stats_bounds "here" describe run (omega arith)

control_flow-IsAnswered_example :
    IsAnswered first
      (control_flow "here" describe ((1005, raised (python "KeyError" "k"), 1025) ∷ []) one_call)
unfolding program
control_flow-IsAnswered_example =
    control_flow-IsAnswered "here" describe ((1005, raised (python "KeyError" "k"), 1025) ∷ [])
      one_call first refl (omega arith) (inl refl)

fresh-IsCounted : IsCounted (init_times 1000) 1000
unfolding init_times
fresh-IsCounted = omega arith

time_stats_exceeds_example :
    let st = time_stats 121000 (compute_proc_stats 1000 121000 (init_times 1000)) in
    st.now_since_prior < st.proc_time_since_prior
time_stats_exceeds_example =
    time_stats_exceeds (init_times 1000) 1000 121000 fresh-IsCounted (omega arith)

-- The call 4 is found at one place three times within 20 seconds.
abbrev seen : ℕ → Beat ℕ
seen now = record { ctrl_current = some 4; stack = 17; now = now }

heartbeat-is_stuck_example :
    (heartbeat
      (record { proc_count = 30; proc_time = 20 })
      (seen 21000)
      (after (record { proc_count = 30; proc_time = 20 }) (seen 9000 ∷ seen 1000 ∷ []))).0
    ≡ ok false
unfolding streak oldest
heartbeat-is_stuck_example =
    heartbeat-is_stuck (record { proc_count = 30; proc_time = 20 }) (seen 21000)
      (seen 9000 ∷ seen 1000 ∷ [])
