-- ===== src/LifeCycle/Tests.antt =====
-- A small workflow, and the theorems at it.
use scioncc.Prelude.{
  String, ◌≡◌, true, not, ◌&&◌, none, some, [], ◌∷◌, contains, dedupe, nat_eq, string_eq, pair_eq,
  arith, eq_iff,
}
use scioncc.Prelude.Dict
use scioncc.Prelude.Dict.{Dict}
use scioncc.LifeCycle.{
  Definition, transitions_of, get_fsm_definition, init, is_in_state, clone_with_restrictions,
  get_lcstate_successor, successors, predecessors,
}
use scioncc.LifeCycle.Workflow.{IsClosed, unless_removed, clone_with_restrictions-IsClosed}
use scioncc.LifeCycle.Made.{last_target, init-IsClosed}

program : Unit {0}
unfolding transitions_of get_fsm_definition init is_in_state successors predecessors Dict.get
    Dict.put contains dedupe
program = tt

abbrev workflow : Definition
workflow = record {
  lcstate_states = "DRAFT" ∷ "DEPLOYED" ∷ "RETIRED" ∷ [];
  lcstate_transitions = ("DRAFT", "deploy", "DEPLOYED") ∷ ("DEPLOYED", "retire", "RETIRED") ∷ [];
  initial_lcstate = some "DRAFT";
  availability_states = [];
  availability_transitions = [];
  initial_availability = none;
  remove_states = [];
}

abbrev restriction : Definition
restriction = record workflow { remove_states = "RETIRED" ∷ [] }

covered :
    (s e targ : String)
    → last_target workflow.lcstate_transitions s e ≡ some targ
    → (contains (init workflow).lcstate_states s ≡ true)
      × (contains (init workflow).lcstate_states targ ≡ true)
unfolding program
covered s e targ h =
    ground
      (arith, eq_iff "DRAFT" s, eq_iff "DEPLOYED" s, eq_iff "DEPLOYED" targ, eq_iff "RETIRED" targ)

clone_with_restrictions-IsClosed_example :
    IsClosed (clone_with_restrictions (init workflow) restriction)
    × ((s : String)
        → contains (clone_with_restrictions (init workflow) restriction).lcstate_states s ≡ (
            contains (init workflow).lcstate_states s
            && not (contains restriction.remove_states s)))
    × ((src evt : String)
        → get_lcstate_successor (clone_with_restrictions (init workflow) restriction) src evt
          ≡ unless_removed restriction.remove_states src
              (get_lcstate_successor (init workflow) src evt))
clone_with_restrictions-IsClosed_example =
    clone_with_restrictions-IsClosed (init workflow) restriction (init-IsClosed workflow covered).0
