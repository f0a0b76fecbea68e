-- ===== src/Leader/TwoLeaders.antt =====
-- src/ion/core/process/leader.py, LeaderManager: how two instances lead at once, after release_leader and
-- after a round of the leader loop that another one interrupts.
use scioncc.Prelude.{
  ℕ, ◌==◌, ◌+◌, ◌<◌, ◌≡◌, refl, sym, ◌∙◌, ap, true, false, none, some, nat_eq, string_eq, ok, arith,
  eq_refl,
}
use scioncc.Prelude.Dict
use scioncc.Lock.{
  LockEntry, Store, Env, is_lock_expired, create_doc, key_error, alone, Request, try_create,
  acquire_lock, release_lock,
}
use scioncc.Lock.Valid.{IsValid}
use scioncc.Lock.Acquire.{IsSound}
use scioncc.Lock.Race.{at_statement, acquire_lock-two_grants, release_result, release_lock-alone}
use scioncc.Leader.{
  LeaderManager, lock_timeout, is_leader, release_leader, Readings, request, check_lock,
}

acquire_free :
    (q : Request) (s : Store)
    → IsSound q
    → Dict.get s q.key ≡ none
    → (acquire_lock alone q s).0 ≡ ok true
unfolding acquire_lock try_create create_doc
acquire_free q s sound free = rw (sound.key, sound.expires, acquire_lock) (ground (arith, free))

released :
    (m : LeaderManager) (s : Store) (now : ℕ)
    → m.has_lock ≡ true
    → now < m.lock_expires
    → ((release_leader alone m s now).0 ≡ (release_lock alone s m.scope m.instance_id).0)
      × ((release_leader alone m s now).1 ≡ m)
      × ((release_leader alone m s now).2 ≡ (release_lock alone s m.scope m.instance_id).1)
unfolding release_leader is_leader
released m s now had live = ground (arith, had)

-- A leader that calls release_leader gives the lock away and still takes itself for the leader: the
-- next round of any other instance makes that one the leader too, and until the old expiration both
-- answer true to `is_leader`.
pub release_leader-two_leaders :
    (m other : LeaderManager) (s : Store) (e : LockEntry) (now later : ℕ) (t : Readings)
    → IsValid s
    → Dict.get s m.scope ≡ some e
    → e.holder ≡ m.instance_id
    → m.has_lock ≡ true
    → now < m.lock_expires
    → later < m.lock_expires
    → other.scope ≡ m.scope
    → other.has_lock ≡ false
    → IsSound (request other t)
    → later < t.cur_time + lock_timeout
    → (let (r, m', s') = release_leader alone m s now in
        (r ≡ ok tt)
        × (let (r', other', s'') = check_lock alone alone other s' t in
            (r' ≡ ok tt)
            × ((is_leader alone m' s'' later).0 ≡ true)
            × ((is_leader alone other' s'' later).0 ≡ true)))
unfolding check_lock is_leader
release_leader-two_leaders m other s e now later t v at holds had live live' same idle sound soon =
    let key : key_error m.scope ≡ none = ap key_error (sym same) ∙ sound.key in
    let (result, removed, _) = release_lock-alone s m.scope m.instance_id key v in
    let fine : release_result s m.scope m.instance_id ≡ ok tt =
      ground (arith, at, holds, eq_refl m.instance_id) in
    let (r, m', s') = released m s now had live in
    let free : Dict.get (release_leader alone m s now).2 other.scope ≡ none =
      ground (arith, s', removed fine m.scope, eq_refl m.scope, same) in
    let granted = acquire_free (request other t) (release_leader alone m s now).2 sound free in
    (
      ground (arith, r, result, fine),
      (ground (arith, granted, idle), ground (arith, m', had), ground (arith, granted, idle)),
    )

-- A round of an instance whose lock, if it has one, is live, and which is granted the lock.
granted_leads :
    (env : Env) (m : LeaderManager) (s : Store) (t : Readings)
    → (m.has_lock ≡ true → t.now_leader < m.lock_expires)
    → env 0 s ≡ s
    → (acquire_lock env (request m t) s).0 ≡ ok true
    → check_lock alone env m s t ≡ (
      ok tt,
      record m { has_lock = true; lock_expires = t.cur_time + lock_timeout },
      (acquire_lock env (request m t) s).1,
    )
unfolding check_lock is_leader
granted_leads env m s t live quiet granted = ground (arith, granted, quiet)

-- Two instances become leaders without any release_leader, if one's round is interrupted by the other's:
-- the first instance reads the lock of the second one just after it expired; before it deletes that
-- entry, the second instance, which read it just before, renews it in a whole round of its own. Both
-- rounds return, and until the sooner of the new expirations both instances answer true to `is_leader`.
pub check_lock-two_leaders :
    (m other : LeaderManager) (s : Store) (e : LockEntry) (t u : Readings) (later : ℕ)
    → IsSound (request m t)
    → IsSound (request other u)
    → IsValid s
    → m.scope ≡ other.scope
    → Dict.get s other.scope ≡ some e
    → e.holder ≡ m.instance_id
    → (m.instance_id == "") ≡ false
    → is_lock_expired e t.now_expired ≡ false
    → is_lock_expired e u.now_expired ≡ true
    → (m.has_lock ≡ true → t.now_leader < m.lock_expires)
    → (other.has_lock ≡ true → u.now_leader < other.lock_expires)
    → later < t.cur_time + lock_timeout
    → later < u.cur_time + lock_timeout
    → (let (r, m', renewed) = check_lock alone alone m s t in
        (r ≡ ok tt)
        × (let (r', other', s') = check_lock alone (at_statement 2 renewed) other s u in
            (r' ≡ ok tt)
            × ((is_leader alone m' s' later).0 ≡ true)
            × ((is_leader alone other' s' later).0 ≡ true)))
unfolding is_leader
check_lock-two_leaders m other s e t u later soundm soundo v same at holds named early late livem
      liveo soon sooner =
    let grants =
      acquire_lock-two_grants (request other u) (request m t) s e soundo soundm v same at holds
        named early late in
    let first = granted_leads alone m s t livem refl grants.0 in
    let second =
      granted_leads (at_statement 2 (acquire_lock alone (request m t) s).1) other s u liveo refl
        grants.1 in
    rw (first, second) (refl, (refl, ground (arith, soon), ground (arith, sooner)))
