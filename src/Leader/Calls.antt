-- ===== src/Leader/Calls.antt =====
-- src/ion/core/process/leader.py: what one call of an instance does with its lock and with others'.
use scioncc.Prelude.{
  ℕ, ◌+◌, ◌<◌, ◌≤◌, String, ◌≡◌, refl, sym, ◌∙◌, ap, Bool, true, false, some, ◌==◌, nat_eq,
  string_eq, Result, ok, err, arith,
}
use mathlib.Core.Path.{subst}
use scioncc.Lock.{Store, LockError, alone, acquire_lock}
use scioncc.Lock.Acquire.{terms}
use scioncc.Lock.Held.{acquire_lock-IsHeld}
use scioncc.Leader.{
  LeaderManager, lock_timeout, is_leader, Readings, request, recorded_lock, check_lock,
}
use scioncc.Leader.Foreign.{release_foreign, acquire_foreign, acquire_raises}

-- The leader's lock stands in the directory and expires there no sooner.
abbrev pub Backed : String → LeaderManager → Store → Type 0
Backed i m s = (exp : ℕ) × (terms s m.scope ≡ some (i, exp)) × (m.lock_expires ≤ exp)

recorded_lock-own :
    (i : String) (m : LeaderManager) (cur_time exp : ℕ) (r : Result LockError Bool) (s : Store)
    → (r ≡ ok true → terms s m.scope ≡ some (i, exp))
    → cur_time + lock_timeout ≤ exp
    → ((e : LockError)
        → r ≡ err e
        → m.has_lock ≡ true
        → m.lock_expires ≡ (recorded_lock m cur_time (r, s)).1.lock_expires
        → Backed i m s)
    → (recorded_lock m cur_time (r, s)).1.has_lock ≡ true
    → Backed i (recorded_lock m cur_time (r, s)).1 (recorded_lock m cur_time (r, s)).2
recorded_lock-own i m cur_time exp (err e) s held ordered raised leads = raised e refl leads refl
recorded_lock-own i m cur_time exp (ok true) s held ordered raised leads = (exp, held refl, ordered)
recorded_lock-own i m cur_time exp (ok false) s held ordered raised leads = cc

module _ (m : LeaderManager) (s : Store) where
  pub is_leader-names :
      (now : ℕ)
      → ((is_leader alone m s now).1.scope ≡ m.scope)
        × ((is_leader alone m s now).1.instance_id ≡ m.instance_id)
  unfolding is_leader
  is_leader-names now = ground arith

  pub check_lock-names :
      (t : Readings)
      → ((check_lock alone alone m s t).1.scope ≡ m.scope)
        × ((check_lock alone alone m s t).1.instance_id ≡ m.instance_id)
  unfolding check_lock
  check_lock-names t = ground (arith, is_leader-names t.now_leader)

  pub is_leader-own :
      (now : ℕ)
      → (is_leader alone m s now).1.has_lock ≡ true
      → is_leader alone m s now ≡ (true, m, s)
  unfolding is_leader
  is_leader-own now h = ground arith

  pub is_leader-foreign :
      (now : ℕ) (i : String) (exp : ℕ)
      → (m.instance_id == "") ≡ false
      → (i == m.instance_id) ≡ false
      → terms s m.scope ≡ some (i, exp)
      → (is_leader alone m s now).2 ≡ s
  unfolding is_leader
  is_leader-foreign now i exp named foreign held =
      ground (arith, release_foreign s m.scope i m.instance_id exp held foreign named)

  pub check_lock-foreign :
      (t : Readings) (i : String) (exp : ℕ)
      → (m.instance_id == "") ≡ false
      → (i == m.instance_id) ≡ false
      → terms s m.scope ≡ some (i, exp)
      → t.now_expired < exp
      → (check_lock alone alone m s t).2 ≡ s
  unfolding check_lock
  check_lock-foreign t i exp named foreign held live =
      let (b, m', s') = is_leader alone m s t.now_leader in
      let same = is_leader-foreign t.now_leader i exp named foreign held in
      ground (
        arith,
        same,
        is_leader-names t.now_leader,
        acquire_foreign (request (is_leader alone m s t.now_leader).1 t) s i exp,
      )

  pub check_lock-own :
      (t : Readings)
      → t.cur_time ≤ t.now
      → (check_lock alone alone m s t).1.has_lock ≡ true
      → (m.has_lock ≡ true
          → m.lock_expires ≡ (check_lock alone alone m s t).1.lock_expires
          → Backed m.instance_id m s)
      → Backed m.instance_id (check_lock alone alone m s t).1 (check_lock alone alone m s t).2
  unfolding check_lock
  check_lock-own t ordered leads before =
      let lead = is_leader alone m s t.now_leader in
      let q = request lead.1 t in
      let names = is_leader-names t.now_leader in
      recorded_lock-own m.instance_id lead.1 t.cur_time (t.now + lock_timeout)
        (acquire_lock alone q lead.2).0 (acquire_lock alone q lead.2).1
        (λ granted. ground (arith, acquire_lock-IsHeld alone q lead.2 granted, names))
        (ground arith)
        (λ e raised had same.
          let own = is_leader-own t.now_leader had in
          let expires : m.lock_expires ≡ lead.1.lock_expires =
            ap (λ p. p.1.lock_expires) (sym own) in
          let had' : m.has_lock ≡ true = ap (λ p. p.1.has_lock) (sym own) ∙ had in
          let kept = acquire_raises alone q lead.2 e raised in
          subst (λ s'. Backed m.instance_id lead.1 s') (sym kept)
            (rw own (before had' (expires ∙ same))))
        leads
