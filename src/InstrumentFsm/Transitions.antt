-- ===== src/InstrumentFsm/Transitions.antt =====
-- src/ion/agent/instrument_fsm.py: which handlers an event calls, in which order, and the state that
-- they leave.
use scioncc.Prelude.{
  ◌≡◌, refl, ◌∙◌, true, Option, none, some, List, ◌∷◌, Eq, Result, ok, err, option_eq, pair_eq,
  contains, arith,
}
use scioncc.InstrumentFsm.{
  handler_error, InstrumentFsm, handler_of, call, enter, on_transition, settle, on_event,
}

abbrev pub moved : {S E H : Type 0} → InstrumentFsm S E H → S → InstrumentFsm S E H
moved m next = record m { previous_state = m.current_state; current_state = some next }

-- The handler, if there is one, put before those that were called earlier.
abbrev pub logged : {H : Type 0} → Option H → List H → List H
logged none w = w
logged (some h) w = h ∷ w

module _ {S H R X A : Type 0} (respond : H → A → Result X (Option S × R)) where
  abbrev pub Returns : Option H → A → Type 0
  Returns none args = Unit
  Returns (some h) args = (p : Option S × R) × (respond h args ≡ ok p)

module _ {S E H R X A : Type 0} ⦃es : Eq S⦄ ⦃ee : Eq E⦄
    (respond : H → A → Result X (Option S × R)) where
  -- Handlers that leave the machine alone; the world is the list of those called, the last one first.
  abbrev pub logging :
      H
      → A
      → InstrumentFsm S E H × List H
      → Result X (Option S × R) × (InstrumentFsm S E H × List H)
  logging h args m = (respond h args, (m.0, h ∷ m.1))

  call-Returns :
      (h : Option H) (args : A) (m : InstrumentFsm S E H) (w : List H)
      → Returns respond h args
      → call logging h args (m, w) ≡ (ok tt, (m, logged h w))
  unfolding call
  call-Returns none args m w r = refl
  call-Returns (some h) args m w (p, r) = ground (arith, r)

  call-raises :
      (h : H) (args : A) (m : InstrumentFsm S E H) (w : List H) (x : X)
      → respond h args ≡ err x
      → call logging (some h) args (m, w) ≡ (err (handler_error x), (m, h ∷ w))
  unfolding call
  call-raises h args m w x r = ground (arith, r)

  on_event-settle :
      (m : InstrumentFsm S E H) (w : List H) (event : E) (args : A) (h : H) (next : Option S)
      (result : R)
      → contains m.events event ≡ true
      → handler_of m event ≡ some h
      → respond h args ≡ ok (next, result)
      → on_event logging (m, w) event args ≡ settle logging (m, h ∷ w) next result args
  unfolding on_event
  on_event-settle m w event args h next result known at r = ground (arith, known, at, r)

  -- An event whose handler names one of the states as the next one calls, in this order, its own
  -- handler, the exit handler of the old state and the enter handler of the new one, each if there
  -- is one. If all return, so does the event, with its handler's result, and the state has moved.
  pub on_event-moved :
      (m : InstrumentFsm S E H) (w : List H) (event : E) (args : A) (h : H) (next : S) (result : R)
      → contains m.events event ≡ true
      → handler_of m event ≡ some h
      → respond h args ≡ ok (some next, result)
      → contains m.states next ≡ true
      → Returns respond (handler_of m m.exit_event) args
      → Returns respond (handler_of (moved m next) m.enter_event) args
      → on_event logging (m, w) event args ≡ (
        ok result,
        (
          moved m next,
          logged
              (handler_of (moved m next) m.enter_event)
              (logged (handler_of m m.exit_event) (h ∷ w)),
        ),
      )
  unfolding settle on_transition enter
  on_event-moved m w event args h next result known at r state exits enters =
      on_event-settle m w event args h (some next) result known at r
      ∙ ground (
        arith,
        state,
        call-Returns (handler_of m m.exit_event) args m (h ∷ w) exits,
        call-Returns (handler_of (moved m next) m.enter_event) args (moved m next)
            (logged (handler_of m m.exit_event) (h ∷ w)) enters,
      )

  -- If the exit handler raises, so does the event, and the machine stays in its state.
  pub on_event-exit_raises :
      (m : InstrumentFsm S E H) (w : List H) (event : E) (args : A) (h exit : H) (next : S)
      (result : R) (x : X)
      → contains m.events event ≡ true
      → handler_of m event ≡ some h
      → respond h args ≡ ok (some next, result)
      → contains m.states next ≡ true
      → handler_of m m.exit_event ≡ some exit
      → respond exit args ≡ err x
      → on_event logging (m, w) event args ≡ (err (handler_error x), (m, exit ∷ h ∷ w))
  unfolding settle on_transition enter
  on_event-exit_raises m w event args h exit next result x known at r state exits raised =
      on_event-settle m w event args h (some next) result known at r
      ∙ ground (arith, state, exits, call-raises exit args m (h ∷ w) x raised)

  -- If the enter handler raises, so does the event, but the machine is in the new state already.
  pub on_event-enter_raises :
      (m : InstrumentFsm S E H) (w : List H) (event : E) (args : A) (h enter_handler : H) (next : S)
      (result : R) (x : X)
      → contains m.events event ≡ true
      → handler_of m event ≡ some h
      → respond h args ≡ ok (some next, result)
      → contains m.states next ≡ true
      → Returns respond (handler_of m m.exit_event) args
      → handler_of (moved m next) m.enter_event ≡ some enter_handler
      → respond enter_handler args ≡ err x
      → on_event logging (m, w) event args ≡ (
        err (handler_error x),
        (moved m next, enter_handler ∷ logged (handler_of m m.exit_event) (h ∷ w)),
      )
  unfolding settle on_transition enter
  on_event-enter_raises m w event args h enter_handler next result x known at r state exits enters
        raised =
      on_event-settle m w event args h (some next) result known at r
      ∙ ground (
        arith,
        state,
        enters,
        call-Returns (handler_of m m.exit_event) args m (h ∷ w) exits,
        call-raises enter_handler args (moved m next) (logged (handler_of m m.exit_event) (h ∷ w)) x
            raised,
      )
