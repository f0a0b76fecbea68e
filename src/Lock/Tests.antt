-- ===== src/Lock/Tests.antt =====
-- Two holders of one lock, and the theorems at them.
use scioncc.Prelude.{ℕ, String, ◌≡◌, refl, arith, true, false, [], ◌∷◌, ◌==◌, string_eq, ok}
use scioncc.Prelude.Dict
use scioncc.Lock.{
  LockEntry, Store, alone, Request, create_doc, update_doc, has_id, without_id, delete_doc,
  replace_expired, renew, take_over, try_create, acquire_lock, is_locked, release_lock,
}
use scioncc.Lock.Valid.{IsValid}
use scioncc.Lock.Acquire.{IsSound, is_grantable, IsHeld, acquire_lock-alone}
use scioncc.Lock.Held.{acquire_lock-IsHeld}
use scioncc.Lock.Expired.{release_expired_locks, unexpired, release_expired_locks-unexpired}
use scioncc.Lock.Excluding.{Stands, Keeps, acquire_lock-Keeps, acquire_lock-excludes}
use scioncc.Lock.Race.{at_statement, acquire_lock-two_grants}

abbrev request : String → ℕ → Request
request holder now = record {
  key = "leader";
  timeout = 50;
  lock_holder = holder;
  now = now;
  now_check = now;
  now_expired = now;
  id = now;
  id_again = now;
}

abbrev entry : LockEntry
entry = record { id = 7; rev = 1; expires = 100; holder = "a" }

abbrev held : Store
held = ("leader", entry) ∷ ("other", record { id = 8; rev = 1; expires = 0; holder = "b" }) ∷ []

program : Unit {0}
unfolding create_doc update_doc has_id without_id delete_doc replace_expired renew take_over
    try_create acquire_lock is_locked release_lock Dict.get Dict.put is_grantable
program = tt

refused : (acquire_lock alone (request "b" 99) held).0 ≡ ok false
unfolding program
refused = refl

expired : (acquire_lock alone (request "b" 100) held).0 ≡ ok true
unfolding program
expired = refl

abbrev renewal : Request
renewal = request "a" 90

abbrev foreign : Request
foreign = request "b" 110

renewal-IsSound : IsSound renewal
renewal-IsSound = record { key = refl; expires = refl }

foreign-IsSound : IsSound foreign
foreign-IsSound = record { key = refl; expires = refl }

held-IsValid : IsValid held
unfolding program
held-IsValid = (refl, refl, (refl, refl, tt))

acquire_lock-alone_example :
    ((acquire_lock alone foreign held).0 ≡ ok (is_grantable held foreign))
    × (is_grantable held foreign ≡ true → IsHeld (acquire_lock alone foreign held).1 foreign)
    × (is_grantable held foreign ≡ false → (acquire_lock alone foreign held).1 ≡ held)
    × ((k : String)
        → ("leader" == k) ≡ false
        → Dict.get (acquire_lock alone foreign held).1 k ≡ Dict.get held k)
acquire_lock-alone_example = acquire_lock-alone foreign held foreign-IsSound held-IsValid

acquire_lock-IsHeld_example : IsHeld (acquire_lock alone renewal held).1 renewal
unfolding program
acquire_lock-IsHeld_example = acquire_lock-IsHeld alone renewal held refl

-- A third holder's call, as what others write.
abbrev third : Request
third = request "c" 105

third_call : Store → Store
third_call s = (acquire_lock alone third s).1

third-Keeps : Keeps "leader" "a" 110 third_call
unfolding program third_call
third-Keeps =
    acquire_lock-Keeps alone third "a" 110 (record { key = refl; expires = refl }) refl
      (ground arith) (λ s h. h)

acquire_lock-excludes_example :
    let kept = third_call (acquire_lock alone renewal held).1 in
    (acquire_lock (λ n. third_call) foreign kept ≡ (ok false, third_call kept))
    × Stands "leader" "a" 110 (third_call kept)
unfolding program
acquire_lock-excludes_example =
    acquire_lock-excludes alone (λ n. third_call) third_call renewal foreign held refl
      foreign-IsSound refl refl refl third-Keeps third-Keeps

acquire_lock-two_grants_example :
    ((acquire_lock alone renewal held).0 ≡ ok true)
    × ((acquire_lock (at_statement 2 (acquire_lock alone renewal held).1) foreign held).0 ≡ ok true)
    × IsHeld
        (acquire_lock (at_statement 2 (acquire_lock alone renewal held).1) foreign held).1
        foreign
unfolding program
acquire_lock-two_grants_example =
    acquire_lock-two_grants foreign renewal held entry foreign-IsSound renewal-IsSound held-IsValid
      refl refl refl refl refl refl

release_expired_locks-unexpired_example :
    release_expired_locks alone (λ n. 200) held ≡ unexpired (λ n. 200) 0 held
release_expired_locks-unexpired_example =
    release_expired_locks-unexpired (λ n. 200) held held-IsValid
