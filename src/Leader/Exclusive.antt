-- ===== src/Leader/Exclusive.antt =====
-- src/ion/core/process/leader.py: several instances of one scope over one directory, whose polls and
-- rounds do not interrupt each other. Leader/TwoLeaders.antt has a round that another one interrupts.
use scioncc.Prelude.{
  ℕ, ◌<◌, ◌≤◌, String, ◌≡◌, refl, sym, true, false, some, ◌==◌, if◌then◌else◌, nat_eq, string_eq,
  arith, eq_iff, Bool-cases, inl, inr,
}
use mathlib.Core.Path.{subst}
use scioncc.Lock.{Store, alone}
use scioncc.Lock.Acquire.{terms}
use scioncc.Leader.{LeaderManager, init, is_leader, Readings, check_lock}
use scioncc.Leader.Calls.{
  Backed, is_leader-names, check_lock-names, is_leader-own, is_leader-foreign, check_lock-foreign,
  check_lock-own,
}

-- The instances, by their ids, the directory, and the time.
pub record System : Type 0 where
  pub clock : ℕ
  pub store : Store
  pub manager : String → LeaderManager

-- An instance holds the lock and its lock has not expired.
abbrev pub Leads : System → String → Type 0
Leads w i = ((w.manager i).has_lock ≡ true) × (w.clock < (w.manager i).lock_expires)

abbrev pub with_manager : System → String → ℕ → LeaderManager → Store → System
with_manager w i clock m s = record {
  clock = clock;
  store = s;
  manager = λ j. if j == i then m else w.manager j;
}

pub record IsSafe (scope : String) (w : System) : Type 0 where
  pub scoped : (i : String) → (w.manager i).scope ≡ scope
  pub named : (i : String) → (w.manager i).instance_id ≡ i
  pub backed : (i : String) → Leads w i → Backed i (w.manager i) w.store

-- The instances' calls, one after the other, in any order, at times that do not run back: the polls of
-- is_leader and the rounds of the leader loop. None interrupts another.
pub data Step (w : System) : System → Type 0 where
  tick : (later : ℕ) → w.clock ≤ later → Step w (record w { clock = later })
  poll :
      (i : String) (now : ℕ)
      → (i == "") ≡ false
      → w.clock ≤ now
      → Step w
          (let (_, m, s) = is_leader alone (w.manager i) w.store now in with_manager w i now m s)
  check :
      (i : String) (t : Readings)
      → (i == "") ≡ false
      → w.clock ≤ t.cur_time
      → t.cur_time ≤ t.now_leader
      → t.now_leader ≤ t.now
      → t.now ≤ t.now_check
      → t.now_check ≤ t.now_expired
      → Step w (
          let (_, m, s) = check_lock alone alone (w.manager i) w.store t in
          with_manager w i t.now_expired m s)

-- Any directory at any time, with instances that have not run.
abbrev pub start : String → ℕ → Store → System
start scope clock store = record { clock = clock; store = store; manager = λ i. init scope i }

pub data Reach (scope : String) : System → Type 0 where
  begin : (clock : ℕ) (store : Store) → Reach scope (start scope clock store)
  next : {w w' : System} → Reach scope w → Step w w' → Reach scope w'

-- One instance `j` has moved to `m'` and the directory to `s'`.
module _ (scope : String) (w : System) (safe : IsSafe scope w) (j : String) (clock : ℕ)
    (m' : LeaderManager) (s' : Store) (forward : w.clock ≤ clock)
    (scoped : m'.scope ≡ (w.manager j).scope) (named : m'.instance_id ≡ (w.manager j).instance_id)
    (own : m'.has_lock ≡ true → clock < m'.lock_expires → Backed j m' s')
    (foreign : (i : String) (exp : ℕ)
      → (i == j) ≡ false
      → terms w.store (w.manager j).scope ≡ some (i, exp)
      → clock < exp
      → s' ≡ w.store) where
  abbrev w' : System
  w' = with_manager w j clock m' s'

  with_manager-names :
      (i : String) → ((w'.manager i).scope ≡ scope) × ((w'.manager i).instance_id ≡ i)
  with_manager-names i =
      ground
        (arith, scoped, named, safe.scoped i, safe.named i, safe.scoped j, safe.named j, eq_iff i j)

  other-Backed :
      (i : String)
      → (i == j) ≡ false
      → (w.manager i).has_lock ≡ true
      → clock < (w.manager i).lock_expires
      → Backed i (w.manager i) s'
  other-Backed i other had live =
      let (exp, held, ordered) = safe.backed i (had, ground arith) in
      let kept =
        foreign i exp other (ground (arith, safe.scoped i, safe.scoped j, held)) (ground arith) in
      rw kept (exp, held, ordered)

  with_manager-Backed : (i : String) → Leads w' i → Backed i (w'.manager i) s'
  with_manager-Backed i leads = elim (Bool-cases (i == j)) [
    | inl same ↦ rw (same, (eq_iff i j).0 same) (own (rw same at leads.0) (rw same at leads.1))
    | inr other ↦ rw other (other-Backed i other (rw other at leads.0) (rw other at leads.1))
  ]

  with_manager-IsSafe : IsSafe scope w'
  with_manager-IsSafe = record {
    scoped = λ i. (with_manager-names i).0;
    named = λ i. (with_manager-names i).1;
    backed = with_manager-Backed;
  }

Step-IsSafe : (scope : String) (w w' : System) → IsSafe scope w → Step w w' → IsSafe scope w'
Step-IsSafe scope w w' safe (tick later ordered) = record {
  scoped = safe.scoped;
  named = safe.named;
  backed = λ i leads. safe.backed i (leads.0, ground arith);
}
Step-IsSafe scope w w' safe (poll j now named ordered) =
    let m = w.manager j in
    let names = is_leader-names m w.store now in
    with_manager-IsSafe scope w safe j now (is_leader alone m w.store now).1
      (is_leader alone m w.store now).2 ordered names.0 names.1
      (λ had live.
        let own = is_leader-own m w.store now had in
        rw own (safe.backed j (rw own at had, ground (arith, own))))
      (λ i exp other held live.
        is_leader-foreign m w.store now i exp (ground (arith, safe.named j))
          (ground (arith, safe.named j)) held)
Step-IsSafe scope w w' safe (check j t named o1 o2 o3 o4 o5) =
    let m = w.manager j in
    let names = check_lock-names m w.store t in
    with_manager-IsSafe scope w safe j t.now_expired (check_lock alone alone m w.store t).1
      (check_lock alone alone m w.store t).2 (ground arith) names.0 names.1
      (λ had live.
        subst
          (λ i.
            Backed i (check_lock alone alone m w.store t).1 (check_lock alone alone m w.store t).2)
          (safe.named j)
          (check_lock-own m w.store t (ground arith) had (λ had' same.
            subst (λ i. Backed i m w.store) (sym (safe.named j))
              (safe.backed j (had', ground arith)))))
      (λ i exp other held live.
        check_lock-foreign m w.store t i exp (ground (arith, safe.named j))
          (ground (arith, safe.named j)) held live)

Reach-IsSafe : (scope : String) (w : System) → Reach scope w → IsSafe scope w
Reach-IsSafe scope w (begin clock store) = record {
  scoped = λ i. refl;
  named = λ i. refl;
  backed = λ i leads. cc;
}
Reach-IsSafe scope w (next {w = w0} before step) =
    Step-IsSafe scope w0 w (Reach-IsSafe scope w0 before) step

leader-Leads :
    (w : System) (i : String) → (is_leader alone (w.manager i) w.store w.clock).0 ≡ true → Leads w i
unfolding is_leader
leader-Leads w i h = ground arith

-- Two instances that are the leader at one time are one instance, in every state that polls and
-- rounds of the leader loop lead to from any directory, in any order, at times that do not run back,
-- with instance ids that are not empty, if each poll and each round ends before the next one of any
-- instance begins and no instance calls release_leader.
pub is_leader_unique :
    (scope : String) (w : System) (i j : String)
    → Reach scope w
    → (is_leader alone (w.manager i) w.store w.clock).0 ≡ true
    → (is_leader alone (w.manager j) w.store w.clock).0 ≡ true
    → i ≡ j
is_leader_unique scope w i j reached li lj =
    let safe = Reach-IsSafe scope w reached in
    let (ei, hi, _) = safe.backed i (leader-Leads w i li) in
    let (ej, hj, _) = safe.backed j (leader-Leads w j lj) in
    ground (arith, safe.scoped i, safe.scoped j)
