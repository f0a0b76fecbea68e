-- ===== src/LifeCycle/Made.antt =====
-- src/pyon/ion/resource.py: the workflows that ResourceLifeCycleSM.__init__ makes.
use scioncc.Prelude.{
  String, ◌≡◌, refl, sym, ◌∙◌, true, ◌&&◌, ◌==◌, Option, none, some, List, [], ◌∷◌, if◌then◌else◌,
  contains, nat_eq, string_eq, pair_eq, ok, err, arith, eq_iff,
}
use scioncc.Prelude.Dict
use scioncc.Prelude.Dict.{Dict, get-put}
use scioncc.LifeCycle.{
  Transitions, Definition, key_error, transitions_of, get_fsm_definition, init, is_in_state,
  get_lcstate_successor,
}
use scioncc.LifeCycle.Workflow.{IsDict, IsClosed}

-- `is_in_state` never answers false: for two different states it raises a KeyError, in every
-- workflow that `__init__` makes, since no alias is ever registered.
pub is_in_state_raises :
    (kwargs : Definition) (current_state query_state : String)
    → is_in_state (init kwargs) current_state query_state
      ≡ (if current_state == query_state then ok true else err key_error)
unfolding is_in_state init Dict.get
is_in_state_raises kwargs current_state query_state = ground arith

-- The target that the definition lists last for a state and an event.
abbrev pub last_target : List (String × String × String) → String → String → Option String
last_target [] s e = none
last_target ((src, evt, targ) ∷ trans) s e = elim (last_target trans s e) [
  | some later ↦ some later
  | none ↦ if (src == s) && (evt == e) then some targ else none
]

IsDict-put :
    (d : Transitions) (k : String × String) (targ : String) → IsDict d → IsDict (Dict.put d k targ)
unfolding Dict.get Dict.put
IsDict-put [] k targ v = (refl, tt)
IsDict-put ((j, u) ∷ d) k targ v =
    ground (arith, IsDict-put d k targ v.1, get-put d k j targ, eq_iff j k, eq_iff k j, v.0)

IsDict-transitions_of :
    (trans : List (String × String × String)) (d : Transitions)
    → IsDict d
    → IsDict (transitions_of trans d)
unfolding transitions_of
IsDict-transitions_of [] d v = v
IsDict-transitions_of ((src, evt, targ) ∷ trans) d v =
    IsDict-transitions_of trans (Dict.put d (src, evt) targ) (IsDict-put d (src, evt) targ v)

get-transitions_of :
    (trans : List (String × String × String)) (d : Transitions) (s e : String)
    → Dict.get (transitions_of trans d) (s, e)
      ≡ (elim (last_target trans s e) [ some targ ↦ some targ | none ↦ Dict.get d (s, e) ])
unfolding transitions_of
get-transitions_of [] d s e = refl
get-transitions_of ((src, evt, targ) ∷ trans) d s e = ground (
  arith,
  get-transitions_of trans (Dict.put d (src, evt) targ) s e,
  get-put d (src, evt) (s, e) targ,
)

init-last_target :
    (kwargs : Definition) (s e : String)
    → get_lcstate_successor (init kwargs) s e ≡ last_target kwargs.lcstate_transitions s e
unfolding init get_fsm_definition Dict.get
init-last_target kwargs s e = ground (arith, get-transitions_of kwargs.lcstate_transitions [] s e)

-- A workflow made from a definition gives each state and event the target that is listed last for
-- them, and is closed if the states listed cover all those targets and what they are reached from.
pub init-IsClosed :
    (kwargs : Definition)
    → ((s e targ : String)
        → last_target kwargs.lcstate_transitions s e ≡ some targ
        → (contains (init kwargs).lcstate_states s ≡ true)
          × (contains (init kwargs).lcstate_states targ ≡ true))
    → IsClosed (init kwargs)
      × ((s e : String)
          → get_lcstate_successor (init kwargs) s e ≡ last_target kwargs.lcstate_transitions s e)
unfolding init get_fsm_definition
init-IsClosed kwargs covered = (
  record {
    distinct = IsDict-transitions_of kwargs.lcstate_transitions [] tt;
    within = λ src evt targ h. covered src evt targ (sym (init-last_target kwargs src evt) ∙ h);
  },
  init-last_target kwargs,
)
