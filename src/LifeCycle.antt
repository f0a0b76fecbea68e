-- ===== src/LifeCycle.antt =====
-- src/pyon/ion/resource.py, class ResourceLifeCycleSM: the life cycle workflow of a resource type.
-- Where the source iterates over a dict, in an order that Python leaves open, the model takes the
-- order of its list.
pub mod Workflow
mod Neighbours
pub mod Made
mod Tests
use Prim.Native.Char.{Char, code}
use Prim.Native.String
use scioncc.Prelude.{
  String, Bool, true, false, not, ◌||◌, ◌==◌, Option, none, some, List, [], ◌∷◌, if◌then◌else◌,
  contains, dedupe, nat_eq, string_eq, pair_eq, Result, ok, err,
}
use scioncc.Prelude.Dict
use scioncc.Prelude.Dict.{Dict}

abbrev pub Transitions : Type 0
Transitions = Dict (String × String) String

-- The keyword arguments of a workflow definition that the class reads.
pub record Definition : Type 0 where
  pub lcstate_states : List String
  pub lcstate_transitions : List (String × String × String)
  pub initial_lcstate : Option String
  pub availability_states : List String
  pub availability_transitions : List (String × String × String)
  pub initial_availability : Option String
  pub remove_states : List String

pub record ResourceLifeCycleSm : Type 0 where
  pub lcstate_states : List String
  pub lcstate_transitions : Transitions
  pub initial_state : Option String
  pub availability_states : List String
  pub availability_transitions : Transitions
  pub initial_availability : Option String
  pub state_aliases : Dict String (List String)

-- BadRequest, and the KeyError of reading a dict.
pub data LifeCycleError : Type 0 where
  compound_state key_error : LifeCycleError

-- `{(src, evt): targ for src, evt, targ in trans_def}`
unfoldable pub transitions_of : List (String × String × String) → Transitions → Transitions
transitions_of [] d = d
transitions_of ((src, evt, targ) ∷ trans) d = transitions_of trans (Dict.put d (src, evt) targ)

unfoldable pub get_fsm_definition :
    List String → List (String × String × String) → List String × Transitions
get_fsm_definition states trans = (dedupe states, transitions_of trans [])

-- `__init__`, `_initialize_fsms`
unfoldable pub init : Definition → ResourceLifeCycleSm
init kwargs =
    let (lc_states, lc_trans) =
      get_fsm_definition kwargs.lcstate_states kwargs.lcstate_transitions in
    let (av_states, av_trans) =
      get_fsm_definition kwargs.availability_states kwargs.availability_transitions in
    record {
      lcstate_states = lc_states;
      lcstate_transitions = lc_trans;
      initial_state = kwargs.initial_lcstate;
      availability_states = av_states;
      availability_transitions = av_trans;
      initial_availability = kwargs.initial_availability;
      state_aliases = [];
    }

unfoldable pub is_in_state : ResourceLifeCycleSm → String → String → Result LifeCycleError Bool
is_in_state sm current_state query_state =
    if current_state == query_state then ok true else elim (Dict.get sm.state_aliases query_state) [
      | none ↦ err key_error
      | some aliases ↦ ok (contains aliases current_state)
    ]

unfoldable pub remove_transitions : List String → Transitions → Transitions
remove_transitions removed [] = []
remove_transitions removed (((src, evt), targ) ∷ trans) =
    let rest = remove_transitions removed trans in
    if contains removed src || contains removed targ then rest else ((src, evt), targ) ∷ rest

-- `states - set(removed)`
unfoldable pub remove_members : List String → List String → List String
remove_members removed [] = []
remove_members removed (s ∷ states) =
    let rest = remove_members removed states in if contains removed s then rest else s ∷ rest

-- `remove_states` absent or empty leaves both as they are.
unfoldable pub apply_restrictions : ResourceLifeCycleSm → List String → ResourceLifeCycleSm
apply_restrictions sm [] = sm
apply_restrictions sm (r ∷ removed) = record sm {
  lcstate_transitions = remove_transitions (r ∷ removed) sm.lcstate_transitions;
  lcstate_states = remove_members (r ∷ removed) sm.lcstate_states;
}

unfoldable pub clone_with_restrictions : ResourceLifeCycleSm → Definition → ResourceLifeCycleSm
clone_with_restrictions sm wfargs =
    let clone = init wfargs in
    apply_restrictions
      (record clone {
        lcstate_states = sm.lcstate_states;
        lcstate_transitions = sm.lcstate_transitions;
        availability_states = sm.availability_states;
        availability_transitions = sm.availability_transitions;
      })
      wfargs.remove_states

abbrev pub get_lcstate_successor : ResourceLifeCycleSm → String → String → Option String
get_lcstate_successor sm current_state transition_event =
    Dict.get sm.lcstate_transitions (current_state, transition_event)

abbrev pub get_availability_successor : ResourceLifeCycleSm → String → String → Option String
get_availability_successor sm current_state transition_event =
    Dict.get sm.availability_transitions (current_state, transition_event)

abbrev pub has_underscore : String → Bool
has_underscore String.[] = false
has_underscore (String.◌∷◌ c s) = (code c == b'_') || has_underscore s

-- `{evt: targ for (src, evt), targ in … if src == some_state}`
unfoldable pub successors : Transitions → String → Dict String String
successors [] some_state = []
successors (((src, evt), targ) ∷ trans) some_state =
    let rest = successors trans some_state in
    if src == some_state then Dict.put rest evt targ else rest

-- `{src: evt for (src, evt), targ in … if targ == some_state}`
unfoldable pub predecessors : Transitions → String → Dict String String
predecessors [] some_state = []
predecessors (((src, evt), targ) ∷ trans) some_state =
    let rest = predecessors trans some_state in
    if targ == some_state then Dict.put rest src evt else rest

-- `if some_state and "_" in some_state: raise BadRequest`
abbrev checked :
    (Transitions → String → Dict String String)
    → Transitions
    → String
    → Result LifeCycleError (Dict String String)
checked f trans some_state =
    if has_underscore some_state then err compound_state else ok (f trans some_state)

abbrev pub get_lcstate_successors :
    ResourceLifeCycleSm → String → Result LifeCycleError (Dict String String)
get_lcstate_successors sm some_state = checked successors sm.lcstate_transitions some_state

abbrev pub get_availability_successors :
    ResourceLifeCycleSm → String → Result LifeCycleError (Dict String String)
get_availability_successors sm some_state =
    checked successors sm.availability_transitions some_state

abbrev pub get_lcstate_predecessors :
    ResourceLifeCycleSm → String → Result LifeCycleError (Dict String String)
get_lcstate_predecessors sm some_state = checked predecessors sm.lcstate_transitions some_state

abbrev pub get_availability_predecessors :
    ResourceLifeCycleSm → String → Result LifeCycleError (Dict String String)
get_availability_predecessors sm some_state =
    checked predecessors sm.availability_transitions some_state
