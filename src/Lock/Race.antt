-- ===== src/Lock/Race.antt =====
-- src/pyon/ion/directory.py: a call of acquire_lock that another one interrupts, and release_lock.
use scioncc.Prelude.{
  ℕ, ◌+◌, String, ◌≡◌, refl, sym, ap, true, false, not, none, some, ◌&&◌, ◌==◌, if◌then◌else◌, leb,
  ltb, nat_eq, string_eq, Result, ok, err, arith, eq_iff, eq_refl, Option-cases, inl, inr,
}
use scioncc.Prelude.Dict
use scioncc.Prelude.Dict.{get-put}
use scioncc.Lock.{
  LockEntry, Store, LockError, no_lock, not_holder, create_doc, update_doc, delete_doc, has_id,
  without_id, key_error, is_lock_expired, expiration, Env, alone, Request, replace_expired, renew,
  take_over, try_create, acquire_lock, is_locked, release_lock,
}
use scioncc.Lock.Valid.{IsValid, has_id-get, get-without_id, IsValid-put}
use scioncc.Lock.Acquire.{IsSound, IsHeld}
use scioncc.Lock.Held.{acquire_lock-IsHeld}

granted-key :
    (env : Env) (q : Request) (s : Store)
    → (acquire_lock env q s).0 ≡ ok true
    → key_error q.key ≡ none
unfolding acquire_lock
granted-key env q s h = ground arith

-- Once a call has been granted, among any writes of others, `is_locked` answers true up to the
-- lock's expiration, and forever if the timeout was 0.
pub acquire_lock-is_locked :
    (env : Env) (q : Request) (s : Store) (now : ℕ)
    → (acquire_lock env q s).0 ≡ ok true
    → is_locked (acquire_lock env q s).1 q.key now
      ≡ ok (not (ltb 0 (expiration q.now q.timeout) && leb (expiration q.now q.timeout) now))
unfolding is_locked
acquire_lock-is_locked env q s now h =
    rw (granted-key env q s h, is_locked) (ground (arith, acquire_lock-IsHeld env q s h))

abbrev pub release_result : Store → String → String → Result LockError (Unit {0})
release_result s key lock_holder = elim (Dict.get s key) [
  | none ↦ err no_lock
  | some e ↦
      if not (lock_holder == "") && not (e.holder == lock_holder) then err not_holder else ok tt
]

-- `release_lock` of a valid key, uninterrupted, fails without a lock and for a named caller that
-- does not hold it, leaving the store as it was. Otherwise it removes that lock and no other.
pub release_lock-alone :
    (s : Store) (key lock_holder : String)
    → key_error key ≡ none
    → IsValid s
    → ((release_lock alone s key lock_holder).0 ≡ release_result s key lock_holder)
      × (release_result s key lock_holder ≡ ok tt
          → (k : String)
          → Dict.get (release_lock alone s key lock_holder).1 k
            ≡ (if key == k then none else Dict.get s k))
      × ((e : LockError)
          → release_result s key lock_holder ≡ err e
          → (release_lock alone s key lock_holder).1 ≡ s)
unfolding release_lock delete_doc
release_lock-alone s key lock_holder valid v = elim (Option-cases (Dict.get s key)) [
  | inl missing ↦
      rw (valid, missing, release_lock)
        (ground (arith, missing), (λ h k. ground (arith, missing)), λ e h. refl)
  | inr (e, at) ↦
      rw (valid, at, release_lock)
        (
          ground (arith, has_id-get s key e at),
          (λ h k. ground (arith, has_id-get s key e at, get-without_id s key k e v at)),
          λ e' h. ground (arith, has_id-get s key e at),
        )
]

-- Before statement `n` of the call others leave the store `s'`, and write at no other point.
abbrev pub at_statement : ℕ → Store → Env
at_statement n s' m s = if m == n then s' else s

granted-renew :
    (q : Request) (s : Store) (old : LockEntry)
    → IsSound q
    → Dict.get s q.key ≡ some old
    → is_lock_expired old q.now_expired ≡ false
    → (q.lock_holder == "") ≡ false
    → old.holder ≡ q.lock_holder
    → acquire_lock alone q s ≡ (
      ok true,
      Dict.put s q.key (record old {
        expires = expiration q.now q.timeout;
        holder = q.lock_holder;
        rev = old.rev + 1;
      }),
    )
unfolding acquire_lock try_create take_over renew create_doc update_doc
granted-renew q s old sound at live named holds =
    rw (sound.key, sound.expires, acquire_lock)
      (ground (arith, at, eq_refl old.id, eq_refl old.rev, eq_iff old.holder q.lock_holder))

granted-replace :
    (env : Env) (q : Request) (s : Store) (old : LockEntry)
    → IsSound q
    → Dict.get s q.key ≡ some old
    → is_lock_expired old q.now_expired ≡ true
    → env 1 s ≡ s
    → has_id (env 2 s) old.id ≡ true
    → Dict.get (env 3 (without_id (env 2 s) old.id)) q.key ≡ none
    → (acquire_lock env q s).0 ≡ ok true
unfolding acquire_lock try_create take_over replace_expired delete_doc create_doc
granted-replace env q s old sound at expired quiet there gone =
    rw (sound.key, sound.expires, acquire_lock) (ground (arith, at, quiet))

abbrev renewed : Request → LockEntry → LockEntry
renewed r old = record old {
  expires = expiration r.now r.timeout;
  holder = r.lock_holder;
  rev = old.rev + 1;
}

-- Two holders can both be granted one lock: the holder `r` reads its entry just before the entry
-- expires, `q` reads the same entry just after, `r` writes its renewal, and `q` then deletes the
-- entry by its id, which the renewal kept, and creates its own. Both calls return true, and the
-- lock is `q`'s, whatever time `r` was granted.
pub acquire_lock-two_grants :
    (q r : Request) (s : Store) (old : LockEntry)
    → IsSound q
    → IsSound r
    → IsValid s
    → r.key ≡ q.key
    → Dict.get s q.key ≡ some old
    → old.holder ≡ r.lock_holder
    → (r.lock_holder == "") ≡ false
    → is_lock_expired old r.now_expired ≡ false
    → is_lock_expired old q.now_expired ≡ true
    → ((acquire_lock alone r s).0 ≡ ok true)
      × ((acquire_lock (at_statement 2 (acquire_lock alone r s).1) q s).0 ≡ ok true)
      × IsHeld (acquire_lock (at_statement 2 (acquire_lock alone r s).1) q s).1 q
acquire_lock-two_grants q r s old soundq soundr v same at holds named live expired =
    let s' = Dict.put s q.key (renewed r old) in
    let first : acquire_lock alone r s ≡ (ok true, s') =
      rw (sym same) (granted-renew r s old soundr (rw same at) live named holds) in
    let found : Dict.get s' q.key ≡ some (renewed r old) =
      ground (arith, get-put s q.key q.key (renewed r old), eq_refl q.key) in
    let gone =
      get-without_id s' q.key q.key (renewed r old)
        (IsValid-put s q.key old (renewed r old) at refl v) found in
    let second =
      granted-replace (at_statement 2 (acquire_lock alone r s).1) q s old soundq at expired refl
        (rw first (has_id-get s' q.key (renewed r old) found))
        (rw first (ground (arith, gone, eq_refl q.key))) in
    (ap (λ p. p.0) first, second, acquire_lock-IsHeld _ q s second)
