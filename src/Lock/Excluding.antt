-- ===== src/Lock/Excluding.antt =====
-- src/pyon/ion/directory.py: the calls of other holders while a lock is held.
use scioncc.Prelude.{
  ℕ, ◌≤◌, String, ◌≡◌, true, false, some, ◌&&◌, ◌==◌, leb, ltb, nat_eq, string_eq, ok, arith,
  eq_iff, Option-cases, inl, inr,
}
use scioncc.Prelude.Dict
use scioncc.Prelude.Dict.{get-put}
use scioncc.Lock.{
  LockEntry, Store, create_doc, is_lock_expired, expiration, Env, Request, take_over, try_create,
  acquire_lock,
}
use scioncc.Lock.Acquire.{IsSound}
use scioncc.Lock.Held.{acquire_lock-IsHeld}

-- The lock is there, the holder's, and not expired at `now`.
abbrev pub Stands : String → String → ℕ → Store → Type 0
Stands key holder now s =
    (e : LockEntry) × (Dict.get s key ≡ some e)
    × (e.holder ≡ holder)
    × (is_lock_expired e now ≡ false)

-- A write that may do anything to the locks but take this one from its holder.
abbrev pub Keeps : String → String → ℕ → (Store → Store) → Type 0
Keeps key holder now write = (s : Store) → Stands key holder now s → Stands key holder now (write s)

-- What a sound call by another holder, or by one without a name, makes of a lock that stands, where
-- the writes of others in between leave it standing.
foreign_refused :
    (env : Env) (q : Request) (holder : String) (now : ℕ) (s : Store)
    → IsSound q
    → (q.lock_holder == holder) ≡ false
    → q.now_expired ≤ now
    → Keeps q.key holder now (env 1)
    → Stands q.key holder now s
    → acquire_lock env q s ≡ (ok false, env 1 s)
unfolding acquire_lock try_create take_over create_doc
foreign_refused env q holder now s sound foreign early keeps (e, at, holds, live) =
    let (e', at', holds', live') = keeps s (e, at, holds, live) in
    rw (sound.key, sound.expires, acquire_lock)
      (ground (
        arith,
        at,
        at',
        live',
        holds',
        eq_iff q.lock_holder holder,
        eq_iff e'.holder q.lock_holder,
      ))

-- So such a call is itself a write that leaves the lock standing.
pub acquire_lock-Keeps :
    (env : Env) (q : Request) (holder : String) (now : ℕ)
    → IsSound q
    → (q.lock_holder == holder) ≡ false
    → q.now_expired ≤ now
    → Keeps q.key holder now (env 1)
    → Keeps q.key holder now (λ s. (acquire_lock env q s).1)
acquire_lock-Keeps env q holder now sound foreign early keeps s stands =
    rw (foreign_refused env q holder now s sound foreign early keeps stands) (keeps s stands)

granted-Stands :
    (env : Env) (q : Request) (s : Store) (now : ℕ)
    → (acquire_lock env q s).0 ≡ ok true
    → (ltb 0 (expiration q.now q.timeout) && leb (expiration q.now q.timeout) now) ≡ false
    → Stands q.key q.lock_holder now (acquire_lock env q s).1
granted-Stands env q s now granted unexpired =
    let held = acquire_lock-IsHeld env q s granted in
    elim (Option-cases (Dict.get (acquire_lock env q s).1 q.key)) [
      | inl e ↦ absurd (ground (arith, held, e))
      | inr (e, at) ↦ (e, at, ground (arith, held, at), ground (arith, held, at, unexpired))
    ]

-- Once a call has been granted, and until its lock expires, a sound call by any other holder, or by
-- one without a name, that begins after the grant is refused and writes nothing, whatever other
-- processes write before that call (`between`) and between its statements (`during`), as long as
-- none of these writes takes the lock from its holder. The lock still stands then.
pub acquire_lock-excludes :
    (env during : Env) (between : Store → Store) (q other : Request) (s : Store)
    → (acquire_lock env q s).0 ≡ ok true
    → IsSound other
    → other.key ≡ q.key
    → (other.lock_holder == q.lock_holder) ≡ false
    → (ltb 0 (expiration q.now q.timeout) && leb (expiration q.now q.timeout) other.now_expired)
      ≡ false
    → Keeps q.key q.lock_holder other.now_expired between
    → Keeps q.key q.lock_holder other.now_expired (during 1)
    → let held = between (acquire_lock env q s).1 in
      (acquire_lock during other held ≡ (ok false, during 1 held))
      × Stands q.key q.lock_holder other.now_expired (during 1 held)
acquire_lock-excludes env during between q other s granted sound same foreign unexpired before
      keeps =
    let held = between (acquire_lock env q s).1 in
    let stands =
      before (acquire_lock env q s).1
        (granted-Stands env q s other.now_expired granted unexpired) in
    (
      foreign_refused during other q.lock_holder other.now_expired held sound foreign (ground arith)
          (rw same keeps) (rw same stands),
      keeps held stands,
    )
