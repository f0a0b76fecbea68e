-- ===== src/IonProcess/Times.antt =====
-- src/pyon/ion/process.py: how IonProcessThread counts the time that it is busy, in milliseconds and by
-- intervals of a minute.
use scioncc.Prelude.{ℕ, ◌+◌, ◌-◌, ◌*◌, ◌/◌, ◌==◌, nat_eq, ltb, if◌then◌else◌}

-- STAT_INTERVAL_LENGTH
abbrev pub interval_length : ℕ
interval_length = 60000

pub record ProcTimes : Type 0 where
  pub start_time : ℕ
  pub proc_time : ℕ
  pub proc_time_prior : ℕ
  pub proc_time_prior2 : ℕ
  pub proc_interval_num : ℕ

-- What `target` sets when the process starts.
unfoldable pub init : ℕ → ProcTimes
init now = record {
  start_time = now;
  proc_time = 0;
  proc_time_prior = 0;
  proc_time_prior2 = 0;
  proc_interval_num = now / interval_length;
}

-- `_record_proc_time`
unfoldable pub record_proc_time : ℕ → ProcTimes → ProcTimes
record_proc_time cur_time t =
    let cur_interval = cur_time / interval_length in
    if cur_interval == t.proc_interval_num
    then t
    else if cur_interval == t.proc_interval_num + 1
    then record t {
      proc_interval_num = cur_interval;
      proc_time_prior2 = t.proc_time_prior;
      proc_time_prior = t.proc_time;
    }
    else if ltb (t.proc_interval_num + 1) cur_interval
    then record t {
      proc_interval_num = cur_interval;
      proc_time_prior2 = t.proc_time;
      proc_time_prior = t.proc_time;
    }
    else t

-- `_compute_proc_stats`
unfoldable pub compute_proc_stats : ℕ → ℕ → ProcTimes → ProcTimes
unfolding record_proc_time
compute_proc_stats start_proc_time cur_time t =
    let recorded = record_proc_time cur_time t in
    record recorded { proc_time = recorded.proc_time + (cur_time - start_proc_time) }

pub record TimeStats : Type 0 where
  pub running_time : ℕ
  pub idle_time : ℕ
  pub proc_time : ℕ
  pub now_since_prior : ℕ
  pub proc_time_since_prior : ℕ

-- `time_stats`. The time since the start of the prior interval is written without (cur_interval - 1).
unfoldable pub time_stats : ℕ → ProcTimes → TimeStats
time_stats now t =
    let cur_interval = now / interval_length in
    let running_time = now - t.start_time in
    record {
      running_time = running_time;
      idle_time = running_time - t.proc_time;
      proc_time = t.proc_time;
      now_since_prior = now + interval_length - cur_interval * interval_length;
      proc_time_since_prior =
          if cur_interval == t.proc_interval_num
          then t.proc_time - t.proc_time_prior2
          else if cur_interval == t.proc_interval_num + 1
          then t.proc_time - t.proc_time_prior
          else 0;
    }
