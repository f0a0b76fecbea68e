-- ===== src/Fsm/Lookup.antt =====
-- src/pyon/util/fsm.py: `get_transition` after the calls that add a transition.
use scioncc.Prelude.{
  ◌≡◌, refl, Option, some, List, [], ◌∷◌, ◌||◌, ◌&&◌, not, Bool, false, Eq, ◌==◌, if◌then◌else◌,
  pair_eq, option_eq, Result, ok, arith,
}
use scioncc.Prelude.Dict
use scioncc.Prelude.Dict.{get-put}
use scioncc.Fsm.{
  Transition, FsmError, Fsm, or_state, add_transition, add_transition_list, add_transition_catch,
  add_transition_any, set_default_transition, get_transition,
}

module _ {Sym State Act Memory : Type 0} (X : Type 0) ⦃es : Eq Sym⦄ ⦃eq : Eq State⦄
    (m : Fsm Sym State Act Memory) where
  abbrev Found : Type 0
  Found = Result (FsmError Sym State X) (Transition State Act)

  abbrev look : Fsm Sym State Act Memory → Sym → Option State → Found
  look = get_transition

  -- After `add_transition` its symbol and state find it, with the state itself as the next one where
  -- none was given, and every other pair finds what it found before.
  pub get_transition-add_transition :
      (s r : Sym) (q p : Option State) (action : Option Act) (next : Option State)
      → look (add_transition m s q action next) r p
        ≡ (if (s == r) && (q == p) then ok (action, or_state next q) else look m r p)
  unfolding get_transition add_transition
  get_transition-add_transition s r q p action next =
      ground (arith, get-put m.state_transitions (s, q) (r, p) (action, or_state next q))

  -- A transition for any state serves only where no exact one stands.
  pub get_transition-add_transition_catch :
      (s r : Sym) (p : Option State) (action : Option Act) (n : State)
      → look (add_transition_catch m s action (some n)) r p ≡ (
          if Dict.has_key m.state_transitions (r, p) || not (s == r)
          then look m r p
          else ok (action, some n))
  unfolding get_transition add_transition_catch
  get_transition-add_transition_catch s r p action n =
      ground (arith, get-put m.state_transitions_catch s r (action, some n))

  -- A transition for any symbol serves only where neither an exact one nor one of the symbol stands.
  pub get_transition-add_transition_any :
      (r : Sym) (q p : Option State) (action : Option Act) (next : Option State)
      → look (add_transition_any m q action next) r p ≡ (
          if Dict.has_key m.state_transitions (r, p)
            || (Dict.has_key m.state_transitions_catch r || not (q == p))
          then look m r p
          else ok (action, or_state next q))
  unfolding get_transition add_transition_any
  get_transition-add_transition_any r q p action next =
      ground (arith, get-put m.state_transitions_any q p (action, or_state next q))

  -- Once a default is set, every symbol in every state finds a transition: the one that it found
  -- before through the three tables, or else the default.
  pub get_transition-set_default_transition :
      (r : Sym) (p : Option State) (action : Option Act) (next : Option State)
      → look (set_default_transition m action next) r p ≡ (
          if Dict.has_key m.state_transitions (r, p)
            || (Dict.has_key m.state_transitions_catch r || Dict.has_key m.state_transitions_any p)
          then look m r p
          else ok (action, next))
  unfolding get_transition set_default_transition
  get_transition-set_default_transition r p action next = ground arith

abbrev pub member : {Sym : Type 0} ⦃es : Eq Sym⦄ → List Sym → Sym → Bool
member [] r = false
member (s ∷ symbols) r = (s == r) || member symbols r

or_state_twice :
    {State : Type 0} (next q : Option State) → or_state (or_state next q) q ≡ or_state next q
or_state_twice next q = ground arith

module _ {Sym State Act Memory : Type 0} (X : Type 0) ⦃es : Eq Sym⦄ ⦃eq : Eq State⦄ where
  -- `add_transition_list` gives every listed symbol the transition of the state, and changes what
  -- no other symbol and no other state finds.
  pub get_transition-add_transition_list :
      (m : Fsm Sym State Act Memory) (symbols : List Sym) (r : Sym) (q p : Option State)
      (action : Option Act) (next : Option State)
      → get_transition {X = X} (add_transition_list m symbols q action next) r p ≡ (
          if member symbols r && (q == p)
          then ok (action, or_state next q)
          else get_transition m r p)
  unfolding add_transition_list
  get_transition-add_transition_list m [] r q p action next = refl
  get_transition-add_transition_list m (s ∷ symbols) r q p action next = ground (
    arith,
    get_transition-add_transition_list (add_transition m s q action (or_state next q)) symbols r q p
        action next,
    get_transition-add_transition X m s r q p action (or_state next q),
    or_state_twice next q,
  )
