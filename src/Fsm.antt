-- ===== src/Fsm.antt =====
-- src/pyon/util/fsm.py: the finite state machine with a memory. A transition's action is a label that
-- `perform` runs: it takes the machine as it stands, and returns or raises with the machine that it
-- leaves, so that an action may read and change every field, as the callable of the source may.
-- Python's None is a state like any other, hence `Option State`.
pub mod Lookup
pub mod Process
mod Tests
use scioncc.Prelude.{
  ◌≡◌, Bool, true, false, Option, none, some, List, [], ◌∷◌, ◌&&◌, not, Eq, ◌==◌, if◌then◌else◌,
  is_some, pair_eq, option_eq, Result, ok, err,
}
use scioncc.Prelude.Dict
use scioncc.Prelude.Dict.{Dict}

-- (action, next_state)
abbrev pub Transition : Type 0 → Type 0 → Type 0
Transition State Act = Option Act × Option State

pub data FsmError (Sym State X : Type 0) : Type 0 where
  undefined_transition : Sym → Option State → FsmError Sym State X
  action_error : X → FsmError Sym State X

pub record Fsm (Sym State Act Memory : Type 0) : Type 0 where
  pub state_transitions : Dict (Sym × Option State) (Transition State Act)
  pub state_transitions_catch : Dict Sym (Transition State Act)
  pub state_transitions_any : Dict (Option State) (Transition State Act)
  pub default_transition : Option (Transition State Act)
  pub input_symbol : Option Sym
  pub initial_state : Option State
  pub current_state : Option State
  pub next_state : Option State
  pub action : Option Act
  pub memory : Memory
  pub post_action : Bool

module _ {State : Type 0} where
  -- `if next_state is None: next_state = state`
  abbrev pub or_state : Option State → Option State → Option State
  or_state none state = state
  or_state (some n) state = some n

module _ {Sym State Act Memory : Type 0} where
  unfoldable pub init : Option State → Memory → Bool → Fsm Sym State Act Memory
  init initial memory post = record {
    state_transitions = [];
    state_transitions_catch = [];
    state_transitions_any = [];
    default_transition = none;
    input_symbol = none;
    initial_state = initial;
    current_state = initial;
    next_state = none;
    action = none;
    memory = memory;
    post_action = post;
  }

  unfoldable pub reset : Fsm Sym State Act Memory → Fsm Sym State Act Memory
  reset m = record m { current_state = m.initial_state; input_symbol = none }

module _ {Sym State Act Memory : Type 0} ⦃es : Eq Sym⦄ ⦃eq : Eq State⦄ where
  unfoldable pub add_transition :
      Fsm Sym State Act Memory
      → Sym
      → Option State
      → Option Act
      → Option State
      → Fsm Sym State Act Memory
  add_transition m symbol state action next = record m {
    state_transitions = Dict.put m.state_transitions (symbol, state) (action, or_state next state);
  }

  unfoldable pub add_transition_list :
      Fsm Sym State Act Memory
      → List Sym
      → Option State
      → Option Act
      → Option State
      → Fsm Sym State Act Memory
  unfolding add_transition
  add_transition_list m [] state action next = m
  add_transition_list m (symbol ∷ symbols) state action next =
      add_transition_list (add_transition m symbol state action (or_state next state)) symbols state
        action next

  -- With no next state this does nothing.
  unfoldable pub add_transition_catch :
      Fsm Sym State Act Memory → Sym → Option Act → Option State → Fsm Sym State Act Memory
  add_transition_catch m symbol action none = m
  add_transition_catch m symbol action (some next) = record m {
    state_transitions_catch = Dict.put m.state_transitions_catch symbol (action, some next);
  }

  unfoldable pub add_transition_any :
      Fsm Sym State Act Memory → Option State → Option Act → Option State → Fsm Sym State Act Memory
  add_transition_any m state action next = record m {
    state_transitions_any = Dict.put m.state_transitions_any state (action, or_state next state);
  }

  unfoldable pub set_default_transition :
      Fsm Sym State Act Memory → Option Act → Option State → Fsm Sym State Act Memory
  set_default_transition m action next = record m { default_transition = some (action, next) }

  unfoldable pub get_transition :
      {X : Type 0}
      → Fsm Sym State Act Memory
      → Sym
      → Option State
      → Result (FsmError Sym State X) (Transition State Act)
  get_transition m symbol state = elim (Dict.get m.state_transitions (symbol, state)) [
    | some t ↦ ok t
    | none ↦ elim (Dict.get m.state_transitions_catch symbol) [
      | some t ↦ ok t
      | none ↦ elim (Dict.get m.state_transitions_any state) [
        | some t ↦ ok t
        | none ↦ elim m.default_transition [
          | some t ↦ ok t
          | none ↦ err (undefined_transition symbol state)
        ]
      ]
    ]
  ]

  -- `_transition`, for an action to call
  unfoldable pub transition : Fsm Sym State Act Memory → Fsm Sym State Act Memory × Bool
  transition m =
      if is_some m.next_state && not (m.current_state == m.next_state)
      then (record m { current_state = m.next_state }, true)
      else (m, false)

module _ {Sym State Act Memory : Type 0} where
  -- `self.current_state = self.next_state; self.next_state = None`
  abbrev pub advance : Fsm Sym State Act Memory → Fsm Sym State Act Memory
  advance m = record m { current_state = m.next_state; next_state = none }

module _ {Sym State Act Memory R X : Type 0} ⦃es : Eq Sym⦄ ⦃eq : Eq State⦄
    (perform : Act → Fsm Sym State Act Memory → Result X R × Fsm Sym State Act Memory) where
  -- `if self.action is not None: res = self.action(self)`
  abbrev pub call_action :
      Option Act
      → Fsm Sym State Act Memory
      → Result (FsmError Sym State X) (Option R) × Fsm Sym State Act Memory
  call_action none m = (ok none, m)
  call_action (some a) m =
      let (res, m') = perform a m in
      elim res [ ok r ↦ (ok (some r), m') | err x ↦ (err (action_error x), m') ]

  -- `process`, once the transition is found
  unfoldable pub take_transition :
      Fsm Sym State Act Memory
      → Transition State Act
      → Result (FsmError Sym State X) (Option R) × Fsm Sym State Act Memory
  take_transition m (action, next) =
      let found : Fsm Sym State Act Memory = record m { action = action; next_state = next } in
      let started = if m.post_action then advance found else found in
      let (res, left) = call_action action started in
      elim res [
        | ok r ↦ (ok r, if not left.post_action then advance left else left)
        | err e ↦ (err e, left)
      ]

  unfoldable pub process :
      Fsm Sym State Act Memory
      → Sym
      → Result (FsmError Sym State X) (Option R) × Fsm Sym State Act Memory
  process m symbol =
      let m' : Fsm Sym State Act Memory = record m { input_symbol = some symbol } in
      elim (get_transition m' symbol m'.current_state) [
        | ok t ↦ take_transition m' t
        | err e ↦ (err e, m')
      ]

  unfoldable pub process_list :
      Fsm Sym State Act Memory
      → List Sym
      → Result (FsmError Sym State X) (List (Option R)) × Fsm Sym State Act Memory
  process_list m [] = (ok [], m)
  process_list m (s ∷ symbols) =
      let (pres, m') = process m s in
      let (rest, last) = process_list m' symbols in
      elim pres [
        | err e ↦ (err e, m')
        | ok r ↦ (elim rest [ ok rs ↦ ok (r ∷ rs) | err e ↦ err e ], last)
      ]
