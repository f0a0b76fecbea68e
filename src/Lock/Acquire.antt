-- ===== src/Lock/Acquire.antt =====
-- src/pyon/ion/directory.py: acquire_lock, for a call that no other process interrupts.
use scioncc.Prelude.{
  ℕ, ◌+◌, String, ◌≡◌, refl, ap, Bool, true, false, not, Option, none, some, ◌&&◌, ◌||◌, ◌==◌,
  if◌then◌else◌, ltb, nat_eq, string_eq, ok, arith, eq_refl, Option-cases, inl, inr,
}
use scioncc.Prelude.Dict
use scioncc.Prelude.Dict.{get-put}
use scioncc.Lock.{
  LockEntry, Store, create_doc, update_doc, without_id, delete_doc, key_error, is_lock_expired,
  expiration, alone, Request, lock_entry, replace_expired, renew, take_over, try_create,
  acquire_lock,
}
use scioncc.Lock.Valid.{IsValid, has_id-get, get-without_id}

-- The request passes the tests of its arguments.
pub record IsSound (q : Request) : Type 0 where
  pub key : key_error q.key ≡ none
  pub expires :
      (not (expiration q.now q.timeout == 0) && ltb (expiration q.now q.timeout) q.now_check)
      ≡ false

-- Nobody holds the lock, or the lock has expired, or the requester holds it.
unfoldable pub is_grantable : Store → Request → Bool
is_grantable s q = elim (Dict.get s q.key) [
  | none ↦ true
  | some e ↦
      is_lock_expired e q.now_expired || (not (q.lock_holder == "") && (e.holder == q.lock_holder))
]

-- The holder of the lock and its expiration.
abbrev pub terms : Store → String → Option (String × ℕ)
terms s key = elim (Dict.get s key) [ none ↦ none | some e ↦ some (e.holder, e.expires) ]

-- The lock is the requester's and expires when the request says.
abbrev pub IsHeld : Store → Request → Type 0
IsHeld s q = terms s q.key ≡ some (q.lock_holder, expiration q.now q.timeout)

module _ (q : Request) (s : Store) (v : IsValid s) (old : LockEntry)
    (at : Dict.get s q.key ≡ some old) where
  replace_expired-alone :
      ((replace_expired alone q s old).0 ≡ true)
      × ((k : String)
          → Dict.get (replace_expired alone q s old).1 k
            ≡ (if q.key == k then some (lock_entry q q.id_again) else Dict.get s k))
  unfolding replace_expired delete_doc create_doc
  replace_expired-alone =
      let there = has_id-get s q.key old at in
      let gone = get-without_id s q.key q.key old v at in
      (
        ground (arith, there, gone, eq_refl q.key),
        λ k. ground (
          arith,
          there,
          gone,
          eq_refl q.key,
          get-without_id s q.key k old v at,
          get-put (without_id s old.id) q.key k (lock_entry q q.id_again),
        ),
      )

  renew-alone :
      ((renew alone q s old).0 ≡ true)
      × ((k : String)
          → Dict.get (renew alone q s old).1 k ≡ (
              if q.key == k
              then some (record old {
                expires = expiration q.now q.timeout;
                holder = q.lock_holder;
                rev = old.rev + 1;
              })
              else Dict.get s k))
  unfolding renew update_doc
  renew-alone = (
    ground (arith, at, eq_refl old.id, eq_refl old.rev),
    λ k. ground (
      arith,
      at,
      eq_refl old.id,
      eq_refl old.rev,
      get-put s q.key k (record old {
        expires = expiration q.now q.timeout;
        holder = q.lock_holder;
        rev = old.rev + 1;
      }),
    ),
  )

-- What a call that returns `granted` leaves.
record Settles (q : Request) (s : Store) (granted : Bool) (after : Bool × Store) : Type 0 where
  result : after.0 ≡ granted
  held : granted ≡ true → IsHeld after.1 q
  kept : granted ≡ false → after.1 ≡ s
  others : (k : String) → (q.key == k) ≡ false → Dict.get after.1 k ≡ Dict.get s k

module _ (q : Request) (s : Store) where
  take_over-Settles :
      (old : LockEntry)
      → IsValid s
      → Dict.get s q.key ≡ some old
      → Settles q s (is_grantable s q) (take_over alone q s)
  unfolding take_over is_grantable
  take_over-Settles old v at =
      let (replaced, after_replace) = replace_expired-alone q s v old at in
      let (renewed, after_renew) = renew-alone q s v old at in
      record {
        result = ground (arith, at, replaced, renewed);
        held = λ h. ground (arith, at, after_replace q.key, after_renew q.key, eq_refl q.key, h);
        kept = λ h. ground (arith, at, h);
        others = λ k h. ground (arith, at, after_replace k, after_renew k, h);
      }

  create-Settles :
      Dict.get s q.key ≡ none → Settles q s true (true, Dict.put s q.key (lock_entry q q.id))
  create-Settles missing = record {
    result = refl;
    held = λ _. ground (arith, get-put s q.key q.key (lock_entry q q.id), eq_refl q.key);
    kept = λ h. cc;
    others = λ k h. ground (arith, get-put s q.key k (lock_entry q q.id), h);
  }

  try_create-Settles : IsValid s → Settles q s (is_grantable s q) (try_create alone q s)
  unfolding try_create create_doc is_grantable
  try_create-Settles v = elim (Option-cases (Dict.get s q.key)) [
    | inl missing ↦ rw (missing, try_create, is_grantable) (create-Settles missing)
    | inr (old, at) ↦ rw (at, try_create) (take_over-Settles old v at)
  ]

-- A sound request that nobody interrupts is granted exactly if nobody holds the lock, it has
-- expired, or the requester holds it. Granted, the lock is the requester's until the new expiration;
-- refused, the store stays as it was. No other lock changes.
pub acquire_lock-alone :
    (q : Request) (s : Store)
    → IsSound q
    → IsValid s
    → ((acquire_lock alone q s).0 ≡ ok (is_grantable s q))
      × (is_grantable s q ≡ true → IsHeld (acquire_lock alone q s).1 q)
      × (is_grantable s q ≡ false → (acquire_lock alone q s).1 ≡ s)
      × ((k : String) → (q.key == k) ≡ false → Dict.get (acquire_lock alone q s).1 k ≡ Dict.get s k)
unfolding acquire_lock
acquire_lock-alone q s sound v =
    let t = try_create-Settles q s v in
    rw (sound.key, sound.expires, acquire_lock) (ap ok t.result, t.held, t.kept, t.others)
