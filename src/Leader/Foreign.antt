-- ===== src/Leader/Foreign.antt =====
-- src/ion/core/process/leader.py: calls of the directory that leave it as it is.
use scioncc.Prelude.{ℕ, ◌<◌, String, ◌≡◌, false, some, ◌==◌, nat_eq, string_eq, err, arith}
use scioncc.Lock.{
  Store, LockError, create_doc, Env, alone, Request, take_over, try_create, acquire_lock,
  release_lock,
}
use scioncc.Lock.Acquire.{terms}

-- A live lock of another holder is neither taken nor released.
pub release_foreign :
    (s : Store) (key i j : String) (exp : ℕ)
    → terms s key ≡ some (i, exp)
    → (i == j) ≡ false
    → (j == "") ≡ false
    → (release_lock alone s key j).1 ≡ s
unfolding release_lock
release_foreign s key i j exp h foreign named = ground arith

pub acquire_foreign :
    (q : Request) (s : Store) (i : String) (exp : ℕ)
    → terms s q.key ≡ some (i, exp)
    → (i == q.lock_holder) ≡ false
    → q.now_expired < exp
    → (acquire_lock alone q s).1 ≡ s
unfolding acquire_lock try_create take_over create_doc
acquire_foreign q s i exp h foreign live = ground arith

pub acquire_raises :
    (env : Env) (q : Request) (s : Store) (e : LockError)
    → (acquire_lock env q s).0 ≡ err e
    → (acquire_lock env q s).1 ≡ s
unfolding acquire_lock
acquire_raises env q s e h = ground arith
