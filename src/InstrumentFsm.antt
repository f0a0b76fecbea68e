-- ===== src/InstrumentFsm.antt =====
-- src/ion/agent/instrument_fsm.py: the state machine of drivers and agents, class InstrumentFSM.
-- A handler is a label that `perform` runs on its arguments, the machine and the world beyond it: it
-- returns a next state and a result, or raises, with the machine and the world that it leaves.
pub mod Events
pub mod Transitions
mod Tests
use scioncc.Prelude.{
  Bool, true, false, not, ◌&&◌, ◌||◌, Option, none, some, List, [], ◌∷◌, Eq, ◌==◌, if◌then◌else◌,
  Result, ok, err, option_eq, pair_eq, contains, append_new,
}
use scioncc.Prelude.Dict
use scioncc.Prelude.Dict.{Dict}

-- FSMStateError, FSMCommandUnknownError, and what a handler raises.
pub data FsmError (S E X : Type 0) : Type 0 where
  state_error : E → Option S → FsmError S E X
  command_unknown : E → FsmError S E X
  handler_error : X → FsmError S E X

pub record InstrumentFsm (S E H : Type 0) : Type 0 where
  pub states : List S
  pub events : List E
  pub state_handlers : Dict (S × E) H
  pub current_state : Option S
  pub previous_state : Option S
  pub enter_event : E
  pub exit_event : E

module _ {S E H : Type 0} where
  abbrev pub init : List S → List E → E → E → InstrumentFsm S E H
  init states events enter_event exit_event = record {
    states = states;
    events = events;
    state_handlers = [];
    current_state = none;
    previous_state = none;
    enter_event = enter_event;
    exit_event = exit_event;
  }

module _ {S E H : Type 0} ⦃es : Eq S⦄ ⦃ee : Eq E⦄ where
  unfoldable pub add_handler : InstrumentFsm S E H → S → E → H → Bool × InstrumentFsm S E H
  add_handler m state event handler =
      if not (contains m.states state)
      then (false, m)
      else if not (contains m.events event)
      then (false, m)
      else (true, record m { state_handlers = Dict.put m.state_handlers (state, event) handler })

  -- `self.state_handlers.get((self.current_state, event), None)`: None has no handlers.
  unfoldable pub handler_of : InstrumentFsm S E H → E → Option H
  handler_of m event = elim m.current_state [
    | none ↦ none
    | some s ↦ Dict.get m.state_handlers (s, event)
  ]

  -- The loop over the handlers of get_events.
  unfoldable pub collect : InstrumentFsm S E H → Bool → List E → Dict (S × E) H → List E
  collect m current_only events [] = events
  collect m current_only events (((state, event), h) ∷ handlers) =
      let kept =
        if not ((event == m.enter_event) || (event == m.exit_event))
          && (not current_only || (m.current_state == some state))
        then append_new events event
        else events in
      collect m current_only kept handlers

  unfoldable pub get_events : InstrumentFsm S E H → Bool → List E
  get_events m current_state = collect m current_state [] m.state_handlers

module _ {S E H R X A W : Type 0} ⦃es : Eq S⦄ ⦃ee : Eq E⦄
    (perform : H
      → A
      → InstrumentFsm S E H × W
      → Result X (Option S × R) × (InstrumentFsm S E H × W)) where
  abbrev pub Outcome : Type 0 → Type 0
  Outcome B = Result (FsmError S E X) B × (InstrumentFsm S E H × W)

  -- `if handler: handler(*args, **kwargs)`
  unfoldable pub call : Option H → A → InstrumentFsm S E H × W → Outcome (Unit {0})
  call none args m = (ok tt, m)
  call (some h) args m =
      let (r, m') = perform h args m in
      elim r [ ok _ ↦ (ok tt, m') | err x ↦ (err (handler_error x), m') ]

  unfoldable pub start : InstrumentFsm S E H × W → S → A → Outcome Bool
  start (m, w) state args =
      if not (contains m.states state)
      then (ok false, (m, w))
      else (let m' : InstrumentFsm S E H = record m { current_state = some state } in
          let (r, left) = call (handler_of m' m'.enter_event) args (m', w) in
          (elim r [ ok _ ↦ ok true | err e ↦ err e ], left))

  -- The second half of `_on_transition`, from `self.previous_state = self.current_state`.
  unfoldable pub enter : InstrumentFsm S E H × W → S → A → Outcome (Unit {0})
  enter (m, w) next args =
      let m' : InstrumentFsm S E H = record m {
        previous_state = m.current_state;
        current_state = some next;
      } in
      call (handler_of m' m'.enter_event) args (m', w)

  unfoldable pub on_transition : InstrumentFsm S E H × W → S → A → Outcome (Unit {0})
  on_transition (m, w) next args =
      let (r, left) = call (handler_of m m.exit_event) args (m, w) in
      elim r [ err e ↦ (err e, left) | ok _ ↦ enter left next args ]

  -- `if self.states.has(next_state)`, and the result of the event's handler; None is no state.
  unfoldable pub settle : InstrumentFsm S E H × W → Option S → R → A → Outcome R
  settle m none result args = (ok result, m)
  settle m (some next) result args =
      if contains m.0.states next
      then (let (r, left) = on_transition m next args in
          (elim r [ ok _ ↦ ok result | err e ↦ err e ], left))
      else (ok result, m)

  -- What the event's handler returned or raised.
  abbrev pub answered : Result X (Option S × R) × (InstrumentFsm S E H × W) → A → Outcome R
  answered (err x, left) args = (err (handler_error x), left)
  answered (ok (next, result), left) args = settle left next result args

  unfoldable pub on_event : InstrumentFsm S E H × W → E → A → Outcome R
  on_event (m, w) event args =
      if contains m.events event
      then elim (handler_of m event) [
        | none ↦ (err (state_error event m.current_state), (m, w))
        | some h ↦ answered (perform h args (m, w)) args
      ]
      else (err (command_unknown event), (m, w))
