-- ===== src/LifeCycle/Workflow.antt =====
-- src/pyon/ion/resource.py: what a restriction leaves of a workflow.
use scioncc.Prelude.{
  String, ◌≡◌, refl, true, not, ◌&&◌, ◌||◌, Option, none, some, List, [], ◌∷◌, if◌then◌else◌,
  contains, nat_eq, string_eq, pair_eq, arith, eq_iff,
}
use scioncc.Prelude.Dict
use scioncc.Prelude.Dict.{Dict, get-put}
use scioncc.LifeCycle.{
  Transitions, Definition, ResourceLifeCycleSm, init, remove_transitions, remove_members,
  apply_restrictions, clone_with_restrictions, get_lcstate_successor,
}

-- Each key is held once.
abbrev pub IsDict : Transitions → Type 0
IsDict [] = Unit
IsDict ((k, targ) ∷ trans) = (Dict.get trans k ≡ none) × IsDict trans

-- Transitions stay within the states.
pub record IsClosed (sm : ResourceLifeCycleSm) : Type 0 where
  pub distinct : IsDict sm.lcstate_transitions
  pub within :
      (src evt targ : String)
      → get_lcstate_successor sm src evt ≡ some targ
      → (contains sm.lcstate_states src ≡ true) × (contains sm.lcstate_states targ ≡ true)

abbrev pub unless_removed : List String → String → Option String → Option String
unless_removed removed src none = none
unless_removed removed src (some targ) =
    if contains removed src || contains removed targ then none else some targ

get-remove_transitions :
    (removed : List String) (trans : Transitions) (src evt : String)
    → IsDict trans
    → Dict.get (remove_transitions removed trans) (src, evt)
      ≡ unless_removed removed src (Dict.get trans (src, evt))
unfolding remove_transitions Dict.get
get-remove_transitions removed [] src evt d = refl
get-remove_transitions removed (((src', evt'), targ) ∷ trans) src evt d =
    ground (
      arith,
      get-remove_transitions removed trans src evt d.1,
      eq_iff src' src,
      eq_iff evt' evt,
      d.0,
    )

remove_transitions-IsDict :
    (removed : List String) (trans : Transitions)
    → IsDict trans
    → IsDict (remove_transitions removed trans)
unfolding remove_transitions
remove_transitions-IsDict removed [] d = tt
remove_transitions-IsDict removed (((src, evt), targ) ∷ trans) d = ground (
  arith,
  remove_transitions-IsDict removed trans d.1,
  get-remove_transitions removed trans src evt d.1,
  d.0,
)

contains-remove_members :
    (removed states : List String) (s : String)
    → contains (remove_members removed states) s ≡ (contains states s && not (contains removed s))
unfolding remove_members contains
contains-remove_members removed [] s = refl
contains-remove_members removed (s' ∷ states) s =
    ground (arith, contains-remove_members removed states s, eq_iff s' s)

-- What restricting to the states that are not removed makes of the first workflow.
record Restricts (sm after : ResourceLifeCycleSm) (removed : List String) : Type 0 where
  closed : IsClosed after
  states :
      (s : String)
      → contains after.lcstate_states s ≡ (contains sm.lcstate_states s && not (contains removed s))
  transitions :
      (src evt : String)
      → get_lcstate_successor after src evt
        ≡ unless_removed removed src (get_lcstate_successor sm src evt)

unless_removed_none : (src : String) (o : Option String) → o ≡ unless_removed [] src o
unfolding contains
unless_removed_none src none = refl
unless_removed_none src (some targ) = refl

apply_restrictions-Restricts :
    (sm : ResourceLifeCycleSm) (removed : List String)
    → IsClosed sm
    → Restricts sm (apply_restrictions sm removed) removed
unfolding apply_restrictions contains
apply_restrictions-Restricts sm [] v = record {
  closed = v;
  states = λ s. ground arith;
  transitions = λ src evt. unless_removed_none src (get_lcstate_successor sm src evt);
}
apply_restrictions-Restricts sm (r ∷ removed) v = record {
  closed = record {
    distinct = remove_transitions-IsDict (r ∷ removed) sm.lcstate_transitions v.distinct;
    within = λ src evt targ h. ground (
      arith,
      get-remove_transitions (r ∷ removed) sm.lcstate_transitions src evt v.distinct,
      v.within src evt targ,
      contains-remove_members (r ∷ removed) sm.lcstate_states src,
      contains-remove_members (r ∷ removed) sm.lcstate_states targ,
    );
  };
  states = contains-remove_members (r ∷ removed) sm.lcstate_states;
  transitions =
      λ src evt. get-remove_transitions (r ∷ removed) sm.lcstate_transitions src evt v.distinct;
}

-- A restricted clone of a closed workflow has exactly the states that are not removed and the
-- transitions between those, and is closed again.
pub clone_with_restrictions-IsClosed :
    (sm : ResourceLifeCycleSm) (wfargs : Definition)
    → IsClosed sm
    → IsClosed (clone_with_restrictions sm wfargs)
      × ((s : String)
          → contains (clone_with_restrictions sm wfargs).lcstate_states s
            ≡ (contains sm.lcstate_states s && not (contains wfargs.remove_states s)))
      × ((src evt : String)
          → get_lcstate_successor (clone_with_restrictions sm wfargs) src evt
            ≡ unless_removed wfargs.remove_states src (get_lcstate_successor sm src evt))
unfolding clone_with_restrictions
clone_with_restrictions-IsClosed sm wfargs v =
    let copied : ResourceLifeCycleSm = record (init wfargs) {
      lcstate_states = sm.lcstate_states;
      lcstate_transitions = sm.lcstate_transitions;
      availability_states = sm.availability_states;
      availability_transitions = sm.availability_transitions;
    } in
    let v' : IsClosed copied = record { distinct = v.distinct; within = v.within } in
    let restricted = apply_restrictions-Restricts copied wfargs.remove_states v' in
    (restricted.closed, restricted.states, restricted.transitions)
