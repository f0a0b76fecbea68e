-- ===== src/Leader/Tests.antt =====
-- Two instances of one scope, and the theorems at them.
use scioncc.Prelude.{ℕ, String, ◌≡◌, refl, true, [], ◌∷◌, string_eq, ok, arith}
use scioncc.Prelude.Dict
use scioncc.Lock.{
  alone, LockEntry, Store, create_doc, update_doc, has_id, without_id, delete_doc, replace_expired,
  renew, take_over, try_create, acquire_lock, release_lock,
}
use scioncc.Lock.Race.{at_statement}
use scioncc.Lock.Valid.{IsValid}
use scioncc.Lock.Acquire.{IsSound}
use scioncc.Leader.{LeaderManager, init, is_leader, release_leader, Readings, request, check_lock}
use scioncc.Leader.Exclusive.{
  System, start, check, Reach, begin, next, is_leader_unique, with_manager,
}
use scioncc.Leader.TwoLeaders.{release_leader-two_leaders, check_lock-two_leaders}

program : Unit {0}
unfolding create_doc update_doc has_id without_id delete_doc replace_expired renew take_over
    try_create acquire_lock release_lock Dict.get Dict.put is_leader release_leader check_lock
program = tt

abbrev readings : ℕ → Readings
readings now = record {
  cur_time = now;
  now_leader = now;
  now = now;
  now_check = now;
  now_expired = now;
  id = now;
  id_again = now;
}

abbrev empty_store : Store
empty_store = []

abbrev begun : System
begun = start "scope" 5 empty_store

abbrev elected : System
elected =
    (let (_, m, s) = check_lock alone alone (begun.manager "a") begun.store (readings 6) in
      with_manager begun "a" 6 m s)

elected-Reach : Reach "scope" elected
elected-Reach = next (begin 5 empty_store) (
    check "a" (readings 6) refl (ground arith) (ground arith) (ground arith) (ground arith)
      (ground arith))

is_leader_unique_example : ◌≡◌ {A = String} "a" "a"
unfolding program
is_leader_unique_example = is_leader_unique "scope" elected "a" "a" elected-Reach refl refl

abbrev entry : LockEntry
entry = record { id = 1; rev = 1; expires = 90000; holder = "a" }

abbrev held : Store
held = ("scope", entry) ∷ []

abbrev leader : LeaderManager
leader = record (init "scope" "a") { has_lock = true; lock_expires = 90000 }

abbrev follower : LeaderManager
follower = init "scope" "b"

held-IsValid : IsValid held
unfolding program
held-IsValid = (refl, refl, tt)

follower-IsSound : IsSound (request follower (readings 20))
follower-IsSound = record { key = refl; expires = refl }

release_leader-two_leaders_example :
    (let (r, m', s') = release_leader alone leader held 10 in
      (r ≡ ok tt)
      × (let (r', other', s'') = check_lock alone alone follower s' (readings 20) in
          (r' ≡ ok tt)
          × ((is_leader alone m' s'' 30).0 ≡ true)
          × ((is_leader alone other' s'' 30).0 ≡ true)))
unfolding Dict.get
release_leader-two_leaders_example =
    release_leader-two_leaders leader follower held entry 10 30 (readings 20) held-IsValid refl refl
      refl (ground arith) (ground arith) refl refl follower-IsSound (ground arith)

leader-IsSound : IsSound (request leader (readings 80000))
leader-IsSound = record { key = refl; expires = refl }

late-IsSound : IsSound (request follower (readings 90000))
late-IsSound = record { key = refl; expires = refl }

-- The follower reads the lock as it expires, the leader has read it ten seconds before.
check_lock-two_leaders_example :
    (let (r, m', renewed) = check_lock alone alone leader held (readings 80000) in
      (r ≡ ok tt)
      × (let (r', other', s') =
            check_lock alone (at_statement 2 renewed) follower held (readings 90000) in
          (r' ≡ ok tt)
          × ((is_leader alone m' s' 100000).0 ≡ true)
          × ((is_leader alone other' s' 100000).0 ≡ true)))
unfolding Dict.get
check_lock-two_leaders_example =
    check_lock-two_leaders leader follower held entry (readings 80000) (readings 90000) 100000
      leader-IsSound late-IsSound held-IsValid refl refl refl refl refl refl (λ _. ground arith)
      (λ h. ground (arith, h)) (ground arith) (ground arith)
