-- ===== src/Lock/Held.antt =====
-- src/pyon/ion/directory.py: acquire_lock, for a call between whose statements others write.
use scioncc.Prelude.{
  ◌+◌, String, ◌≡◌, true, Option, none, some, nat_eq, string_eq, Result, ok, err, arith, eq_refl,
  Option-cases, inl, inr,
}
use scioncc.Prelude.Dict
use scioncc.Prelude.Dict.{get-put}
use scioncc.Lock.{
  LockEntry, Store, create_doc, update_doc, delete_doc, expiration, Env, Request, lock_entry,
  replace_expired, renew, take_over, try_create, acquire_lock,
}
use scioncc.Lock.Acquire.{terms, IsHeld}

abbrev okay : {A B : Type 0} → Result A B → Option B
okay (ok b) = some b
okay (err a) = none

create_doc-terms :
    (s s' : Store) (key : String) (e : LockEntry)
    → create_doc s key e ≡ ok s'
    → terms s' key ≡ some (e.holder, e.expires)
unfolding create_doc
create_doc-terms s s' key e h =
    ground (arith, get-put s key key (record e { rev = 1 }), eq_refl key)

update_doc-terms :
    (s s' : Store) (key : String) (e : LockEntry)
    → update_doc s key e ≡ ok s'
    → terms s' key ≡ some (e.holder, e.expires)
unfolding update_doc
update_doc-terms s s' key e h =
    ground (arith, get-put s key key (record e { rev = e.rev + 1 }), eq_refl key)

module _ (env : Env) (q : Request) where
  replace_expired-IsHeld :
      (s : Store) (old : LockEntry)
      → (replace_expired env q s old).0 ≡ true
      → IsHeld (replace_expired env q s old).1 q
  unfolding replace_expired
  replace_expired-IsHeld s old h = elim (Option-cases (okay (delete_doc s old.id))) [
    | inl e ↦ ground arith
    | inr (deleted, e) ↦ ground (
      arith,
      create_doc-terms (env 3 deleted) (replace_expired env q s old).1 q.key
          (lock_entry q q.id_again),
    )
  ]

  renew-IsHeld :
      (s : Store) (old : LockEntry) → (renew env q s old).0 ≡ true → IsHeld (renew env q s old).1 q
  unfolding renew
  renew-IsHeld s old h = ground (
    arith,
    update_doc-terms s (renew env q s old).1 q.key
        (record old { expires = expiration q.now q.timeout; holder = q.lock_holder }),
  )

  take_over-IsHeld : (s : Store) → (take_over env q s).0 ≡ true → IsHeld (take_over env q s).1 q
  unfolding take_over
  take_over-IsHeld s h = elim (Option-cases (Dict.get s q.key)) [
    | inl missing ↦ ground arith
    | inr (old, at) ↦
        ground (arith, at, replace_expired-IsHeld (env 2 s) old, renew-IsHeld (env 2 s) old)
  ]

  try_create-IsHeld : (s : Store) → (try_create env q s).0 ≡ true → IsHeld (try_create env q s).1 q
  unfolding try_create
  try_create-IsHeld s h = ground (
    arith,
    take_over-IsHeld (env 1 s),
    create_doc-terms s (try_create env q s).1 q.key (lock_entry q q.id),
  )

-- Whatever other processes write between its statements, a call that returns true leaves the lock
-- with its own holder and expiration.
pub acquire_lock-IsHeld :
    (env : Env) (q : Request) (s : Store)
    → (acquire_lock env q s).0 ≡ ok true
    → IsHeld (acquire_lock env q s).1 q
unfolding acquire_lock
acquire_lock-IsHeld env q s = ground (arith, try_create-IsHeld env q s)
