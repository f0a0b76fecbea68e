-- ===== src/IdPool/Tests.antt =====
-- A `set.pop` that takes the first element, and the theorems with it.
use scioncc.Prelude.{
  ℕ, ◌+◌, ◌≡◌, refl, Option, none, some, List, [], ◌∷◌, nat_eq, contains, append_new, remove_first,
  arith, eq_iff, eq_refl,
}
use scioncc.IdPool.{IdPool, init, IsPop, get_id, release_id}
use scioncc.IdPool.Unique.{IsValid, IsValid-init, Grants, get_id-Grants}

abbrev pop : List ℕ → Option (ℕ × List ℕ)
pop [] = none
pop (x ∷ xs) = some (x, xs)

pop-IsPop : IsPop pop
unfolding contains
pop-IsPop = record {
  on_empty = refl;
  on_cons = λ x xs distinct. (
    x,
    xs,
    refl,
    ground (arith, eq_refl x),
    distinct.1,
    λ b. ground (arith, distinct.0, eq_iff x b),
  );
}

abbrev successor : ℕ → ℕ
successor x = x + 1

program : Unit {0}
unfolding get_id release_id contains append_new remove_first
program = tt

abbrev two : IdPool
two = (get_id pop successor (get_id pop successor init).1).1

reused : (get_id pop successor (release_id two 1)).0 ≡ 1
unfolding program
reused = refl

two-IsValid : IsValid two
two-IsValid =
    (get_id-Grants pop successor pop-IsPop (λ x. ground arith) (get_id pop successor init).1
      (get_id-Grants pop successor pop-IsPop (λ x. ground arith) init IsValid-init).valid).valid

get_id-Grants_example : Grants two (get_id pop successor two)
get_id-Grants_example = get_id-Grants pop successor pop-IsPop (λ x. ground arith) two two-IsValid
