-- ===== src/Memoize/Tests.antt =====
-- A cache of two entries, the theorem at it, and calls that share a key.
use scioncc.Prelude.{
  ℕ, ◌+◌, ◌*◌, ◌≤◌, ◌≡◌, refl, none, some, List, [], ◌∷◌, map, nat_eq, length, arith,
}
use scioncc.Prelude.Dict
use scioncc.Memoize.{
  Element, other, Call, tuple, name_le, sorted, key_of, Wrapper, init, miss, wrapper,
}
use scioncc.Memoize.Calls.{IsValid, calls, calls-eq_map}
use scioncc.Memoize.Colliding.{
  IsPositional, IsPositional-Agrees, positional, by_keyword, calls_collide,
}

program : Unit {0}
unfolding name_le sorted key_of miss wrapper calls Dict.get Dict.remove
program = tt

abbrev total : List (Element ℕ) → ℕ
total [] = 0
total (other n ∷ xs) = n + total xs
total (x ∷ xs) = total xs

abbrev double : Call ℕ → ℕ
double c = 2 * total c.args

abbrev call : ℕ → Call ℕ
call n = record { args = other n ∷ []; kwds = [] }

abbrev cold : Wrapper ℕ ℕ
cold = init

abbrev made : List (Call ℕ)
made = call 1 ∷ call 2 ∷ call 1 ∷ call 3 ∷ call 1 ∷ call 2 ∷ []

counted :
    calls none double 2 cold made
    ≡ some (
      2 ∷ 4 ∷ 2 ∷ 6 ∷ 2 ∷ 4 ∷ [],
      record {
        cache = (tuple (other 1 ∷ []), 2) ∷ (tuple (other 2 ∷ []), 4) ∷ [];
        hits = 2;
        misses = 4;
      },
    )
unfolding program
counted = refl

cold-IsValid : IsValid none IsPositional double 2 cold
cold-IsValid = record { values = tt; bounded = ground arith }

calls-eq_map_example :
    (w' : Wrapper ℕ ℕ) × (calls none double 2 cold made ≡ some (map double made, w'))
    × (length w'.cache ≤ 2)
    × (w'.hits + w'.misses ≡ (0 + 0) + length made)
calls-eq_map_example =
    calls-eq_map none double 2 IsPositional made cold (ground arith) (IsPositional-Agrees double)
      (refl, (refl, (refl, (refl, (refl, (refl, tt)))))) cold-IsValid

abbrev count : Call ℕ → ℕ
count c = length c.args

-- The second call has no positional argument, and is answered with 1.
calls_collide_example :
    (w : Wrapper ℕ ℕ) × (calls none count 5 init
        (positional none count 5 "x" 1 ∷ by_keyword none count 5 "x" 1 ∷ [])
      ≡ some (1 ∷ 1 ∷ [], w))
    × (w.hits ≡ 1)
calls_collide_example = calls_collide none count 5 "x" 1 (ground arith)
