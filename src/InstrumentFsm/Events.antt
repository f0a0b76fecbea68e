-- ===== src/InstrumentFsm/Events.antt =====
-- src/ion/agent/instrument_fsm.py: get_events, and the states and handlers of a machine under its
-- owner's calls.
use scioncc.Prelude.{
  ◌≡◌, refl, sym, ◌∙◌, Bool, true, not, ◌&&◌, ◌||◌, Option, none, some, List, [], ◌∷◌, Eq, ◌==◌,
  if◌then◌else◌, Result, ok, err, option_eq, pair_eq, contains, append_new, contains-append_new,
  IsNodup, IsNodup-append_new, arith, eq_iff, Option-cases, Bool-cases, inl, inr, is_some,
}
use mathlib.Core.Path.{subst}
use scioncc.Prelude.Dict
use scioncc.Prelude.Dict.{Dict, get-put}
use scioncc.InstrumentFsm.{
  InstrumentFsm, add_handler, handler_of, collect, get_events, call, start, enter, on_transition,
  settle, answered, on_event,
}

module _ {S E H : Type 0} ⦃es : Eq S⦄ ⦃ee : Eq E⦄ (m : InstrumentFsm S E H) where
  -- The event is neither the one of entering a state nor the one of leaving it.
  abbrev pub is_plain : E → Bool
  is_plain event = not ((event == m.enter_event) || (event == m.exit_event))

  collect-current :
      (s : S) (events : List E) (hs : Dict (S × E) H) (e : E)
      → m.current_state ≡ some s
      → contains (collect m true events hs) e
        ≡ (contains events e || (is_plain e && Dict.has_key hs (s, e)))
  unfolding collect Dict.get
  collect-current s events [] e at = ground arith
  collect-current s events (((state, event), h) ∷ hs) e at =
      let kept =
        if is_plain event && (m.current_state == some state)
        then append_new events event
        else events in
      ground (
        arith,
        at,
        collect-current s kept hs e at,
        contains-append_new events event e,
        eq_iff s state,
        eq_iff state s,
        eq_iff event e,
      )

  collect-unstarted :
      (events : List E) (hs : Dict (S × E) H)
      → m.current_state ≡ none
      → collect m true events hs ≡ events
  unfolding collect
  collect-unstarted events [] at = refl
  collect-unstarted events (((state, event), h) ∷ hs) at =
      ground (arith, at, collect-unstarted events hs at)

  collect-IsNodup :
      (c : Bool) (events : List E) (hs : Dict (S × E) H)
      → IsNodup events
      → IsNodup (collect m c events hs)
  unfolding collect
  collect-IsNodup c events [] d = d
  collect-IsNodup c events (((state, event), h) ∷ hs) d =
      let kept =
        if is_plain event && (not c || (m.current_state == some state))
        then append_new events event
        else events in
      collect-IsNodup c kept hs (ground (arith, IsNodup-append_new events event d))

  -- `get_events` lists without repetition, and those of the current state are exactly the events
  -- that `on_event` finds a handler for, less the two of entering and leaving a state.
  pub get_events-handler_of :
      ((c : Bool) → IsNodup (get_events m c))
      × ((e : E) → contains (get_events m true) e ≡ (is_plain e && is_some (handler_of m e)))
  unfolding get_events handler_of contains
  get_events-handler_of = (
    (λ c. collect-IsNodup c [] m.state_handlers tt),
    λ e. elim (Option-cases m.current_state) [
      | inl unstarted ↦ ground (arith, unstarted, collect-unstarted [] m.state_handlers unstarted)
      | inr (s, at) ↦ ground (arith, at, collect-current s [] m.state_handlers e at)
    ],
  )

-- The current state is one of the states, and handlers are for states and events of the machine.
pub record IsValid {S E H : Type 0} ⦃es : Eq S⦄ ⦃ee : Eq E⦄ (m : InstrumentFsm S E H) : Type 0 where
  pub current : (s : S) → m.current_state ≡ some s → contains m.states s ≡ true
  pub handled :
      (s : S) (e : E)
      → Dict.has_key m.state_handlers (s, e) ≡ true
      → (contains m.states s ≡ true) × (contains m.events e ≡ true)

-- The calls of a machine's owner.
pub data Op (S E H A : Type 0) : Type 0 where
  op_add_handler : S → E → H → Op S E H A
  op_start : S → A → Op S E H A
  op_on_event : E → A → Op S E H A

module _ {S E H R X A W : Type 0} ⦃es : Eq S⦄ ⦃ee : Eq E⦄
    (perform : H
      → A
      → InstrumentFsm S E H × W
      → Result X (Option S × R) × (InstrumentFsm S E H × W)) where
  abbrev pub run : InstrumentFsm S E H × W → List (Op S E H A) → InstrumentFsm S E H × W
  run m [] = m
  run (m, w) (op_add_handler state event handler ∷ ops) =
      run ((add_handler m state event handler).1, w) ops
  run m (op_start state args ∷ ops) = run (start perform m state args).1 ops
  run m (op_on_event event args ∷ ops) = run (on_event perform m event args).1 ops

module _ {S E H R X A W : Type 0} ⦃es : Eq S⦄ ⦃ee : Eq E⦄
    (perform : H
      → A
      → InstrumentFsm S E H × W
      → Result X (Option S × R) × (InstrumentFsm S E H × W))
    (keeps : (h : H) (args : A) (m : InstrumentFsm S E H × W)
      → IsValid m.0
      → IsValid (perform h args m).1.0 × ((perform h args m).1.0.states ≡ m.0.states)) where
  abbrev Kept : InstrumentFsm S E H × W → InstrumentFsm S E H × W → Type 0
  Kept m left = IsValid left.0 × (left.0.states ≡ m.0.states)

  call-left :
      (h : H) (args : A) (m : InstrumentFsm S E H × W)
      → (call perform (some h) args m).1 ≡ (perform h args m).1
  unfolding call
  call-left h args m = ground arith

  call-Kept :
      (h : Option H) (args : A) (m : InstrumentFsm S E H × W)
      → IsValid m.0
      → Kept m (call perform h args m).1
  unfolding call
  call-Kept none args m v = (v, refl)
  call-Kept (some h) args m v = subst (Kept m) (sym (call-left h args m)) (keeps h args m v)

  enter-Kept :
      (m : InstrumentFsm S E H × W) (next : S) (args : A)
      → contains m.0.states next ≡ true
      → IsValid m.0
      → Kept m (enter perform m next args).1
  unfolding enter
  enter-Kept (m, w) next args state v =
      let m' : InstrumentFsm S E H = record m {
        previous_state = m.current_state;
        current_state = some next;
      } in
      let v' : IsValid m' = record {
        current = λ s e. ground (arith, state);
        handled = v.handled;
      } in
      call-Kept (handler_of m' m'.enter_event) args (m', w) v'

  on_transition-Kept :
      (m : InstrumentFsm S E H × W) (next : S) (args : A)
      → contains m.0.states next ≡ true
      → IsValid m.0
      → Kept m (on_transition perform m next args).1
  unfolding on_transition
  on_transition-Kept (m, w) next args state v =
      let (v', same) = call-Kept (handler_of m m.exit_event) args (m, w) v in
      let left = (call perform (handler_of m m.exit_event) args (m, w)).1 in
      let (v'', same') = enter-Kept left next args (ground (arith, same, state)) v' in
      ground (arith, v', same, v'', same')

  settle-Kept :
      (m : InstrumentFsm S E H × W) (next : Option S) (result : R) (args : A)
      → IsValid m.0
      → Kept m (settle perform m next result args).1
  unfolding settle
  settle-Kept m none result args v = (v, refl)
  settle-Kept m (some next) result args v = ground (arith, v, on_transition-Kept m next args)

  answered-Kept :
      (m : InstrumentFsm S E H × W) (p : Result X (Option S × R) × (InstrumentFsm S E H × W))
      (args : A)
      → Kept m p.1
      → Kept m (answered perform p args).1
  answered-Kept m (err x, left) args v = v
  answered-Kept m (ok (next, result), left) args v =
      let (v', same) = settle-Kept left next result args v.0 in (v', same ∙ v.1)

  on_event-Kept :
      (m : InstrumentFsm S E H × W) (event : E) (args : A)
      → IsValid m.0
      → Kept m (on_event perform m event args).1
  unfolding on_event
  on_event-Kept (m, w) event args v = elim (Option-cases (handler_of m event)) [
    | inl missing ↦ ground (arith, missing, v)
    | inr (h, at) ↦
        ground
          (arith, at, v, answered-Kept (m, w) (perform h args (m, w)) args (keeps h args (m, w) v))
  ]

  start-Kept :
      (m : InstrumentFsm S E H × W) (state : S) (args : A)
      → IsValid m.0
      → Kept m (start perform m state args).1
  unfolding start
  start-Kept (m, w) state args v = elim (Bool-cases (contains m.states state)) [
    | inl known ↦
        let m' : InstrumentFsm S E H = record m { current_state = some state } in
        let v' : IsValid m' = record {
          current = λ s e. ground (arith, known);
          handled = v.handled;
        } in
        ground (arith, known, call-Kept (handler_of m' m'.enter_event) args (m', w) v')
    | inr unknown ↦ ground (arith, unknown, v)
  ]

  add_handler-Kept :
      (m : InstrumentFsm S E H) (w : W) (state : S) (event : E) (handler : H)
      → IsValid m
      → Kept (m, w) ((add_handler m state event handler).1, w)
  unfolding add_handler
  add_handler-Kept m w state event handler v = (
    record {
      current = λ s e. ground (arith, v.current s);
      handled = λ s e h. ground (
        arith,
        h,
        v.handled s e,
        get-put m.state_handlers (state, event) (s, e) handler,
        eq_iff state s,
        eq_iff event e,
      );
    },
    ground arith,
  )

  -- Whatever calls are made in whatever order, and also where handlers raise, the machine is in one
  -- of its states or in none, and has handlers for its own states and events only, if each handler
  -- keeps it so and keeps its list of states.
  pub run-IsValid :
      (ops : List (Op S E H A)) (m : InstrumentFsm S E H × W)
      → IsValid m.0
      → IsValid (run perform m ops).0
  run-IsValid [] m v = v
  run-IsValid (op_add_handler state event handler ∷ ops) (m, w) v =
      run-IsValid ops ((add_handler m state event handler).1, w)
        (add_handler-Kept m w state event handler v).0
  run-IsValid (op_start state args ∷ ops) m v =
      run-IsValid ops (start perform m state args).1 (start-Kept m state args v).0
  run-IsValid (op_on_event event args ∷ ops) m v =
      run-IsValid ops (on_event perform m event args).1 (on_event-Kept m event args v).0
