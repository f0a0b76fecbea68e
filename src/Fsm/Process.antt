-- ===== src/Fsm/Process.antt =====
-- src/pyon/util/fsm.py: `process` and `process_list`, for actions given by `perform`.
use scioncc.Prelude.{
  ◌≡◌, Option, none, some, List, [], ◌∷◌, ◌++◌, true, false, Eq, Result, ok, err, arith,
  if◌then◌else◌, is_some, option_eq, ◌⊎◌,
}
use scioncc.Fsm.{
  Transition, FsmError, action_error, Fsm, get_transition, advance, take_transition, process,
  process_list,
}

module _ {Sym State Act Memory R X : Type 0} ⦃es : Eq Sym⦄ ⦃eq : Eq State⦄
    (perform : Act → Fsm Sym State Act Memory → Result X R × Fsm Sym State Act Memory) where
  abbrev pub Machine : Type 0
  Machine = Fsm Sym State Act Memory

  -- The action neither switches the mode nor starts a nested transition; it may raise, change the
  -- memory and the tables, and call `_transition`, which moves `current_state` to `next_state`.
  pub record IsTame (a : Act) : Type 0 where
    pub mode : (m : Machine) → (perform a m).1.post_action ≡ m.post_action
    pub next : (m : Machine) → (perform a m).1.next_state ≡ m.next_state
    pub current :
        (m : Machine)
        → ((perform a m).1.current_state ≡ m.current_state)
          ⊎ ((is_some m.next_state ≡ true) × ((perform a m).1.current_state ≡ m.next_state))

  abbrev pub TameOption : Option Act → Type 0
  TameOption none = Unit
  TameOption (some a) = IsTame a

  process-eq_take_transition :
      (m : Machine) (s : Sym) (t : Transition State Act)
      → get_transition {X = X} (record m { input_symbol = some s }) s m.current_state ≡ ok t
      → process perform m s ≡ take_transition perform (record m { input_symbol = some s }) t
  unfolding process
  process-eq_take_transition m s t found = rw (found, process)

  -- A step with the action before the move, by what the action does.
  pub process_acted :
      (m : Machine) (s : Sym) (a : Act) (next : Option State) (r : R) (left : Machine)
      → get_transition {X = X} (record m { input_symbol = some s }) s m.current_state
        ≡ ok (some a, next)
      → m.post_action ≡ false
      → perform a (record m { input_symbol = some s; action = some a; next_state = next })
        ≡ (ok r, left)
      → left.post_action ≡ false
      → process perform m s ≡ (ok (some r), advance left)
  unfolding take_transition
  process_acted m s a next r left found before acted after =
      rw (process-eq_take_transition m s (some a, next) found)
        (ground (arith, before, acted, after))

  take_transition_raises :
      (m : Machine) (a : Act) (next : Option State) (e : X)
      → ((m' : Machine) → (perform a m').0 ≡ err e)
      → ((m' : Machine) → (perform a m').1 ≡ m')
      → ((take_transition perform m (some a, next)).0 ≡ err (action_error e))
        × ((take_transition perform m (some a, next)).1.current_state
            ≡ (if m.post_action then next else m.current_state))
        × ((take_transition perform m (some a, next)).1.next_state
            ≡ (if m.post_action then none else next))
  unfolding take_transition
  take_transition_raises m a next e raises kept =
      let found : Machine = record m { action = some a; next_state = next } in
      let started : Machine = if m.post_action then advance found else found in
      ground (arith, raises started, kept started)

  -- A step whose action raises stays in its state when the action comes first, and has already moved
  -- when it comes after, for an action that raises with the machine's states as they were.
  pub process_raises :
      (m : Machine) (s : Sym) (a : Act) (next : Option State) (e : X)
      → get_transition {X = X} m s m.current_state ≡ ok (some a, next)
      → ((m' : Machine) → (perform a m').0 ≡ err e)
      → ((m' : Machine) → (perform a m').1 ≡ m')
      → ((process perform m s).0 ≡ err (action_error e))
        × ((process perform m s).1.current_state
            ≡ (if m.post_action then next else m.current_state))
        × ((process perform m s).1.next_state ≡ (if m.post_action then none else next))
  process_raises m s a next e found raises kept =
      rw (process-eq_take_transition m s (some a, next) (unfold get_transition in found))
        (take_transition_raises (record m { input_symbol = some s }) a next e raises kept)

  abbrev pub then_list :
      Result (FsmError Sym State X) (List (Option R)) × Machine
      → List Sym
      → Result (FsmError Sym State X) (List (Option R)) × Machine
  then_list (ok rs, m) ys =
      let (rest, last) = process_list perform m ys in
      (elim rest [ ok rs' ↦ ok (rs ++ rs') | err e ↦ err e ], last)
  then_list (err e, m) ys = (err e, m)

  -- A list of symbols is processed by its first part and then, unless that raised, by its second
  -- part from the machine that the first one left.
  pub process_list-append :
      (xs ys : List Sym) (m : Machine)
      → process_list perform m (xs ++ ys) ≡ then_list (process_list perform m xs) ys
  unfolding process_list
  process_list-append [] ys m = ground arith
  process_list-append (x ∷ xs) ys m =
      ground (arith, process_list-append xs ys (process perform m x).1)
