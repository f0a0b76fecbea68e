-- ===== src/Fsm/Tests.antt =====
-- A turnstile: runs of it, and the theorems at it. Its one action counts in the memory and fails
-- when the count is at its limit.
use scioncc.Prelude.{
  ℕ, ◌+◌, String, ◌≡◌, refl, Option, none, some, List, [], ◌∷◌, false, ◌==◌, if◌then◌else◌, Result,
  ok, err, string_eq, nat_eq, option_eq, pair_eq,
}
use scioncc.Prelude.Dict
use scioncc.Fsm.{Fsm, init, add_transition, get_transition, take_transition, process, process_list}

abbrev Turnstile : Type 0
Turnstile = Fsm String ℕ String ℕ

abbrev perform : String → Turnstile → Result String ℕ × Turnstile
perform a m =
    if a == "count" then (ok m.memory, record m { memory = m.memory + 1 }) else (err "full", m)

abbrev locked : Turnstile
unfolding init add_transition
locked =
    add_transition
      (add_transition
        (add_transition (init (some 0) 0 false) "coin" (some 0) (some "count") (some 1)) "push"
        (some 1) none (some 0))
      "kick" (some 0) (some "break") (some 1)

program : Unit {0}
unfolding process process_list take_transition get_transition add_transition Dict.get Dict.put init
program = tt

run :
    (process_list perform locked ("coin" ∷ "push" ∷ "coin" ∷ [])).0
    ≡ ok (some 0 ∷ none ∷ some 1 ∷ [])
unfolding program
run = refl

abbrev coin : String
coin = "coin"

abbrev push : String
push = "push"

abbrev alarm : String
alarm = "alarm"

abbrev bump : String
bump = "bump"

abbrev gate_b : String
gate_b = "b"

abbrev gates : List String
gates = "a" ∷ "b" ∷ []

abbrev s0 : Option ℕ
s0 = some 0

abbrev s1 : Option ℕ
s1 = some 1
