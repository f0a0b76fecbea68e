-- ===== src/Prelude/Actions.antt =====
-- Methods that change a state and may raise: what was changed before the raise stays changed.
use mathlib.Core.Bool.{Bool}
use scioncc.Prelude.Results.{Result, ok, err}

-- A method of an object with state `S`.
abbrev pub Action : Type 0 → Type 0 → Type 0 → Type 0
Action S E A = S → Result E A × S

module _ {S E A B : Type 0} where
  -- Goes on as `next` where the state comes from another method's end.
  abbrev pub and_then : Result E A × S → (A → S → Result E B × S) → Result E B × S
  and_then (ok a, s) next = next a s
  and_then (err e, s) next = (err e, s)

module _ {S E A : Type 0} where
  abbrev pub pure : A → Action S E A
  pure a s = (ok a, s)

  abbrev pub raise : E → Action S E A
  raise e s = (err e, s)

module _ {S E : Type 0} where
  abbrev pub modify : (S → S) → Action S E (Unit {0})
  modify f s = (ok tt, f s)

  abbrev pub when : Bool → Action S E (Unit {0}) → Action S E (Unit {0})
  when Bool.true m s = m s
  when Bool.false m s = (ok tt, s)

infixl 5 ◌>>=◌ ◌>>◌
abbrev pub ◌>>=◌ : {S E A B : Type 0} → Action S E A → (A → Action S E B) → Action S E B
◌>>=◌ m next s = and_then (m s) next

abbrev pub ◌>>◌ : {S E A B : Type 0} → Action S E A → Action S E B → Action S E B
◌>>◌ m next s = and_then (m s) (λ _. next)
