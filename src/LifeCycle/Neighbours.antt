-- ===== src/LifeCycle/Neighbours.antt =====
-- src/pyon/ion/resource.py: successors and predecessors against the transitions.
use scioncc.Prelude.{
  String, ◌≡◌, refl, true, false, some, [], ◌∷◌, nat_eq, string_eq, pair_eq, ok, err, arith, eq_iff,
}
use scioncc.Prelude.Dict
use scioncc.Prelude.Dict.{Dict, get-put}
use scioncc.LifeCycle.{
  Transitions, ResourceLifeCycleSm, compound_state, get_lcstate_successor, has_underscore,
  successors, predecessors, get_lcstate_successors, get_lcstate_predecessors,
}
use scioncc.LifeCycle.Workflow.{IsDict}

get-successors :
    (trans : Transitions) (s e : String) → Dict.get (successors trans s) e ≡ Dict.get trans (s, e)
unfolding successors Dict.get
get-successors [] s e = refl
get-successors (((src, evt), targ) ∷ trans) s e = ground (
  arith,
  get-successors trans s e,
  get-put (successors trans s) evt e targ,
  eq_iff src s,
  eq_iff evt e,
)

-- The successors of a state are the events with a successor, each with the one that
-- `get_lcstate_successor` gives; a name with an underscore is refused.
pub get_lcstate_successors-get_lcstate_successor :
    (sm : ResourceLifeCycleSm) (s : String)
    → (has_underscore s ≡ true → get_lcstate_successors sm s ≡ err compound_state)
      × (has_underscore s ≡ false
          → (d : Dict String String) × (get_lcstate_successors sm s ≡ ok d)
            × ((e : String) → Dict.get d e ≡ get_lcstate_successor sm s e))
get_lcstate_successors-get_lcstate_successor sm s = (
  (λ h. ground (arith, h)),
  λ h. (
    successors sm.lcstate_transitions s,
    ground (arith, h),
    get-successors sm.lcstate_transitions s,
  ),
)

predecessors_sound :
    (trans : Transitions) (s src evt : String)
    → IsDict trans
    → Dict.get (predecessors trans s) src ≡ some evt
    → Dict.get trans (src, evt) ≡ some s
unfolding predecessors Dict.get
predecessors_sound [] s src evt d h = ground arith
predecessors_sound (((src', evt'), targ) ∷ trans) s src evt d h = ground (
  arith,
  predecessors_sound trans s src evt d.1,
  get-put (predecessors trans s) src' src evt',
  eq_iff targ s,
  eq_iff src' src,
  eq_iff evt' evt,
  d.0,
)

predecessors_complete :
    (trans : Transitions) (s src evt : String)
    → Dict.get trans (src, evt) ≡ some s
    → Dict.has_key (predecessors trans s) src ≡ true
unfolding predecessors Dict.get
predecessors_complete [] s src evt h = ground arith
predecessors_complete (((src', evt'), targ) ∷ trans) s src evt h = ground (
  arith,
  predecessors_complete trans s src evt,
  get-put (predecessors trans s) src' src evt',
  eq_iff targ s,
  eq_iff src' src,
  eq_iff evt' evt,
)

-- For a name without an underscore, each predecessor is listed with an event that leads from it to
-- the state, and every state that an event leads from to this one is listed.
pub get_lcstate_predecessors-get_lcstate_successor :
    (sm : ResourceLifeCycleSm) (s : String)
    → IsDict sm.lcstate_transitions
    → has_underscore s ≡ false
    → (d : Dict String String) × (get_lcstate_predecessors sm s ≡ ok d)
      × ((src evt : String) → Dict.get d src ≡ some evt → get_lcstate_successor sm src evt ≡ some s)
      × ((src evt : String) → get_lcstate_successor sm src evt ≡ some s → Dict.has_key d src ≡ true)
get_lcstate_predecessors-get_lcstate_successor sm s d h = (
  predecessors sm.lcstate_transitions s,
  ground (arith, h),
  (λ src evt. predecessors_sound sm.lcstate_transitions s src evt d),
  predecessors_complete sm.lcstate_transitions s,
)
