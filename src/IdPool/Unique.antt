-- ===== src/IdPool/Unique.antt =====
-- src/pyon/util/pool.py: the ids in use and the free ids under get_id and release_id.
use scioncc.Prelude.{
  ℕ, ◌<◌, ◌≤◌, ◌≡◌, refl, sym, ap, ◌∙◌, true, false, not, ◌&&◌, Option, none, some, List, [], ◌∷◌,
  ◌==◌, nat_eq, contains, append_new, IsNodup, contains-append_new, eq_iff, contains-remove_first,
  IsNodup-append_new, IsNodup-remove_first, arith, ◌||◌,
}
use mathlib.Core.Path.{subst}
use scioncc.IdPool.{IdPool, init, IsPop, get_id, release_id}

pub record IsValid (s : IdPool) : Type 0 where
  pub distinct_used : IsNodup s.ids_in_use
  pub distinct_free : IsNodup s.ids_free
  pub used_le : (a : ℕ) → contains s.ids_in_use a ≡ true → a ≤ s.last_id
  pub free_le : (a : ℕ) → contains s.ids_free a ≡ true → a ≤ s.last_id
  pub apart : (a : ℕ) → contains s.ids_in_use a ≡ true → contains s.ids_free a ≡ false

pub IsValid-init : IsValid init
unfolding contains
IsValid-init = record {
  distinct_used = tt;
  distinct_free = tt;
  used_le = λ a h. cc;
  free_le = λ a h. cc;
  apart = λ a h. refl;
}

-- Releasing an id keeps the pool valid. An id in use becomes free, and only that one; any other id
-- changes nothing.
pub release_id-IsValid :
    (s : IdPool) (the_id : ℕ)
    → IsValid s
    → IsValid (release_id s the_id)
      × ((a : ℕ)
          → contains (release_id s the_id).ids_in_use a
            ≡ (contains s.ids_in_use a && not (the_id == a)))
unfolding release_id
release_id-IsValid s the_id v = (
  record {
    distinct_used =
        ground (arith, v.distinct_used, IsNodup-remove_first s.ids_in_use the_id v.distinct_used);
    distinct_free =
        ground (arith, v.distinct_free, IsNodup-append_new s.ids_free the_id v.distinct_free);
    used_le = λ a h. ground (
      arith,
      v.used_le a,
      contains-append_new s.ids_free the_id a,
      contains-remove_first s.ids_in_use the_id a v.distinct_used,
      eq_iff the_id a,
    );
    free_le = λ a h. ground (
      arith,
      v.free_le a,
      v.used_le the_id,
      contains-append_new s.ids_free the_id a,
      contains-remove_first s.ids_in_use the_id a v.distinct_used,
      eq_iff the_id a,
    );
    apart = λ a h. ground (
      arith,
      v.apart a,
      contains-append_new s.ids_free the_id a,
      contains-remove_first s.ids_in_use the_id a v.distinct_used,
      eq_iff the_id a,
    );
  },
  λ a. ground (
    arith,
    contains-append_new s.ids_free the_id a,
    contains-remove_first s.ids_in_use the_id a v.distinct_used,
    eq_iff the_id a,
  ),
)

-- An id was not in use, and is now the one more id in use of a valid pool.
pub record Grants (s : IdPool) (granted : ℕ × IdPool) : Type 0 where
  pub valid : IsValid granted.1
  pub fresh : contains s.ids_in_use granted.0 ≡ false
  pub used :
      (a : ℕ) → contains granted.1.ids_in_use a ≡ ((granted.0 == a) || contains s.ids_in_use a)

reuse-Grants :
    (s : IdPool) (id : ℕ) (rest : List ℕ)
    → IsValid s
    → contains s.ids_free id ≡ true
    → IsNodup rest
    → ((b : ℕ) → contains rest b ≡ (contains s.ids_free b && not (id == b)))
    → Grants s (id, record s { ids_free = rest; ids_in_use = append_new s.ids_in_use id })
reuse-Grants s id rest v was distinct others = record {
  valid = record {
    distinct_used = IsNodup-append_new s.ids_in_use id v.distinct_used;
    distinct_free = distinct;
    used_le = λ a h.
        ground
          (arith, v.used_le a, v.free_le id, contains-append_new s.ids_in_use id a, eq_iff id a);
    free_le = λ a h. ground (arith, v.free_le a, others a);
    apart = λ a h.
        ground (arith, v.apart a, others a, contains-append_new s.ids_in_use id a, eq_iff id a);
  };
  fresh = ground (arith, v.apart id);
  used = λ a. contains-append_new s.ids_in_use id a;
}

grow-Grants :
    (s : IdPool) (id : ℕ)
    → IsValid s
    → s.last_id < id
    → Grants s (id, record s { last_id = id; ids_in_use = append_new s.ids_in_use id })
grow-Grants s id v above = record {
  valid = record {
    distinct_used = IsNodup-append_new s.ids_in_use id v.distinct_used;
    distinct_free = v.distinct_free;
    used_le =
        λ a h. ground (arith, v.used_le a, contains-append_new s.ids_in_use id a, eq_iff id a);
    free_le = λ a h. ground (arith, v.free_le a);
    apart = λ a h.
        ground (arith, v.apart a, v.free_le a, contains-append_new s.ids_in_use id a, eq_iff id a);
  };
  fresh = ground (arith, v.used_le id);
  used = λ a. contains-append_new s.ids_in_use id a;
}

module _ (pop : List ℕ → Option (ℕ × List ℕ)) (new_id : ℕ → ℕ) (law : IsPop pop)
    (grows : (x : ℕ) → x < new_id x) where
  get_id_new : (s : IdPool) → pop s.ids_free ≡ none → IsValid s → Grants s (get_id pop new_id s)
  unfolding get_id
  get_id_new s empty v = rw (empty, get_id) (grow-Grants s (new_id s.last_id) v (grows s.last_id))

  get_id_free :
      (s : IdPool) (id : ℕ) (rest : List ℕ)
      → pop s.ids_free ≡ some (id, rest)
      → Grants s (id, record s { ids_free = rest; ids_in_use = append_new s.ids_in_use id })
      → Grants s (get_id pop new_id s)
  unfolding get_id
  get_id_free s id rest popped g = rw (popped, get_id) g

  get_id_on :
      (s : IdPool) (free : List ℕ) → s.ids_free ≡ free → IsValid s → Grants s (get_id pop new_id s)
  get_id_on s [] e v = get_id_new s (ap pop e ∙ law.on_empty) v
  get_id_on s (x ∷ xs) e v =
      let (id, rest, popped, was, distinct, others) =
        law.on_cons x xs (subst IsNodup e v.distinct_free) in
      get_id_free s id rest (ap pop e ∙ popped) (
        reuse-Grants s id rest v (ap (λ l. contains l id) e ∙ was) distinct
          (λ b. others b ∙ ap (λ l. contains l b && not (id == b)) (sym e)))

  -- `get_id` returns an id that is not in use, which is then the one more id in use, and keeps the
  -- pool valid.
  pub get_id-Grants : (s : IdPool) → IsValid s → Grants s (get_id pop new_id s)
  get_id-Grants s v = get_id_on s s.ids_free refl v
