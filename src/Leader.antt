-- ===== src/Leader.antt =====
-- src/ion/core/process/leader.py, class LeaderManager: electing a leader by a directory lock. Other
-- containers write between the statements of the directory's calls, as in Lock.antt. The list of leader callbacks is empty, as `__init__` leaves it. Clock readings are arguments.
mod Foreign
mod Calls
pub mod Exclusive
pub mod TwoLeaders
mod Tests
use scioncc.Prelude.{
  ℕ, ◌+◌, ◌*◌, String, Bool, true, false, ◌&&◌, if◌then◌else◌, leb, Result, ok, err,
}
use scioncc.Lock.{Store, LockError, Env, Request, acquire_lock, release_lock}

pub record LeaderManager : Type 0 where
  pub scope : String
  pub instance_id : String
  pub has_lock : Bool
  pub lock_expires : ℕ

abbrev pub init : String → String → LeaderManager
init scope instance_id = record {
  scope = scope;
  instance_id = instance_id;
  has_lock = false;
  lock_expires = 0;
}

-- `_lock_timeout` is 1.5 times the leader interval of 60 seconds, here in milliseconds.
abbrev pub lock_timeout : ℕ
lock_timeout = 90000

-- Whether it is the leader at `now`; an expired lock is given back, whatever release_lock raises.
unfoldable pub is_leader : Env → LeaderManager → Store → ℕ → Bool × LeaderManager × Store
is_leader env m s now =
    if m.has_lock && leb m.lock_expires now
    then (
      false,
      record m { has_lock = false; lock_expires = 0 },
      (release_lock env s m.scope m.instance_id).1,
    )
    else (m.has_lock, m, s)

unfoldable pub release_leader :
    Env → LeaderManager → Store → ℕ → Result LockError (Unit {0}) × LeaderManager × Store
release_leader env m s now =
    let (leads, m', s') = is_leader env m s now in
    if leads
    then (let (released, s'') = release_lock env s' m'.scope m'.instance_id in (released, m', s''))
    else (ok tt, m', s')

-- The clock readings of one `_check_lock`, in their order, and the ids that acquire_lock draws.
pub record Readings : Type 0 where
  pub cur_time : ℕ
  pub now_leader : ℕ
  pub now : ℕ
  pub now_check : ℕ
  pub now_expired : ℕ
  pub id : ℕ
  pub id_again : ℕ

abbrev pub request : LeaderManager → Readings → Request
request m t = record {
  key = m.scope;
  timeout = lock_timeout;
  lock_holder = m.instance_id;
  now = t.now;
  now_check = t.now_check;
  now_expired = t.now_expired;
  id = t.id;
  id_again = t.id_again;
}

-- What acquire_lock returned is recorded; what it raised leaves `_check_lock`.
abbrev recorded_lock :
    LeaderManager
    → ℕ
    → Result LockError Bool × Store
    → Result LockError (Unit {0}) × LeaderManager × Store
recorded_lock m cur_time (err e, s) = (err e, m, s)
recorded_lock m cur_time (ok true, s) =
    (ok tt, record m { has_lock = true; lock_expires = cur_time + lock_timeout }, s)
recorded_lock m cur_time (ok false, s) = (ok tt, record m { has_lock = false }, s)

-- A round: what others write while `is_leader` runs, and from then on, before acquire_lock's first
-- statement and between its statements.
unfoldable pub check_lock :
    Env
    → Env
    → LeaderManager
    → Store
    → Readings
    → Result LockError (Unit {0}) × LeaderManager × Store
check_lock before env m s t =
    let (was_leader, m', s') = is_leader before m s t.now_leader in
    recorded_lock m' t.cur_time (acquire_lock env (request m' t) (env 0 s'))
