-- ===== src/IdPool.antt =====
-- src/pyon/util/pool.py, class IDPool. Its two sets are lists without repetition. Which element
-- `set.pop` takes is not documented, so it is a parameter: `pop` gives an element and the others.
pub mod Unique
mod Tests
use scioncc.Prelude.{
  ℕ, ◌<◌, ◌≡◌, Bool, true, false, not, ◌&&◌, Option, none, some, List, [], ◌∷◌, ◌==◌, nat_eq,
  contains, append_new, remove_first, if◌then◌else◌, IsNodup,
}

pub record IdPool : Type 0 where
  pub ids_in_use : List ℕ
  pub ids_free : List ℕ
  pub last_id : ℕ

abbrev pub init : IdPool
init = record { ids_in_use = []; ids_free = []; last_id = 0 }

-- What the documentation of `set.pop` promises.
pub record IsPop (pop : List ℕ → Option (ℕ × List ℕ)) : Type 0 where
  pub on_empty : pop [] ≡ none
  pub on_cons :
      (x : ℕ) (xs : List ℕ)
      → IsNodup (x ∷ xs)
      → (a : ℕ) × (rest : List ℕ) × (pop (x ∷ xs) ≡ some (a, rest))
        × (contains (x ∷ xs) a ≡ true)
        × IsNodup rest
        × ((b : ℕ) → contains rest b ≡ (contains (x ∷ xs) b && not (a == b)))

module _ (pop : List ℕ → Option (ℕ × List ℕ)) (new_id : ℕ → ℕ) where
  -- No free id, so a new one.
  abbrev grow : IdPool → ℕ × IdPool
  grow s =
      let id = new_id s.last_id in
      (id, record s { last_id = id; ids_in_use = append_new s.ids_in_use id })

  unfoldable pub get_id : IdPool → ℕ × IdPool
  get_id s = elim (pop s.ids_free) [
    | some (id, free) ↦ (id, record s { ids_free = free; ids_in_use = append_new s.ids_in_use id })
    | none ↦ grow s
  ]

unfoldable pub release_id : IdPool → ℕ → IdPool
release_id s the_id =
    if contains s.ids_in_use the_id
    then record s {
      ids_in_use = remove_first s.ids_in_use the_id;
      ids_free = append_new s.ids_free the_id;
    }
    else s
