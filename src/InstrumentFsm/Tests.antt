-- ===== src/InstrumentFsm/Tests.antt =====
-- An instrument that is off or on, and the theorems at it.
use scioncc.Prelude.{
  refl, Option, none, some, List, [], ◌∷◌, String, ◌==◌, string_eq, Result, ok, err, if◌then◌else◌,
  contains, append_new, pair_eq,
}
use scioncc.Prelude.Dict
use scioncc.InstrumentFsm.{
  InstrumentFsm, init, add_handler, handler_of, collect, get_events, call, start, enter,
  on_transition, settle, on_event,
}
use scioncc.InstrumentFsm.Transitions.{logging}
use scioncc.InstrumentFsm.Events.{
  IsValid, Op, op_start, op_on_event, op_add_handler, run, run-IsValid,
}

program : Unit {0}
unfolding add_handler handler_of collect get_events call start enter on_transition settle on_event
    Dict.get Dict.put contains append_new
program = tt

abbrev Instrument : Type 0
Instrument = InstrumentFsm String String String

abbrev off : Instrument
unfolding program
off =
    record (add_handler
      (add_handler
        (add_handler
          (add_handler
            (add_handler
              (init ("off" ∷ "on" ∷ "broken" ∷ [])
                ("enter" ∷ "exit" ∷ "power" ∷ "smash" ∷ "trip" ∷ []) "enter" "exit")
              "off" "power" "do_power").1
            "off" "exit" "do_exit").1
          "on" "enter" "do_enter").1
        "off" "smash" "do_smash").1
      "broken" "enter" "do_fail").1 { current_state = some "off" }

abbrev respond : String → String → Result String (Option String × String)
respond h args =
    if h == "do_power"
    then ok (some "on", "powered")
    else if h == "do_smash"
    then ok (some "broken", "smashed")
    else if h == "do_fail"
    then err "smoke"
    else ok (none, "")

abbrev faulty : String → String → Result String (Option String × String)
faulty h args = if h == "do_exit" then err "stuck" else respond h args

abbrev empty : Instrument
empty = init ("off" ∷ "on" ∷ []) ("enter" ∷ "exit" ∷ "power" ∷ []) "enter" "exit"

empty-IsValid : IsValid empty
unfolding program
empty-IsValid = record { current = λ s e. cc; handled = λ s e h. cc }

abbrev ops : List (Op String String String String)
ops =
    op_add_handler "off" "power" "do_power" ∷ op_start "off" "now" ∷ op_on_event "power" "now" ∷ []

run-IsValid_example : IsValid (run (logging respond) (empty, []) ops).0
run-IsValid_example =
    run-IsValid (logging {E = String} respond) (λ h args m v. (v, refl)) ops (empty, [])
      empty-IsValid
