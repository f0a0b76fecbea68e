-- ===== src/Memoize/Colliding.antt =====
-- src/pyon/util/memoize.py, `memoize_lru`: which calls share a key.
use scioncc.Prelude.{
  ℕ, ◌<◌, ◌≡◌, refl, ap, sym, ◌∙◌, String, none, some, Option, List, [], ◌∷◌, ◌++◌, Eq, eq_refl,
  append-nil, arith,
}
use scioncc.Prelude.Dict
use scioncc.Memoize.{
  Element, item, Call, Key, key_eq, element_eq, sorted, key_of, Wrapper, init, miss, wrapper,
}
use scioncc.Memoize.Calls.{Agrees, calls}

abbrev pub IsPositional : {A : Type 0} → Call A → Type 0
IsPositional c = c.kwds ≡ []

-- Without a hash, positional calls of one key have the same arguments, so every function agrees.
pub IsPositional-Agrees : {A V : Type 0} (f : Call A → V) → Agrees none IsPositional f
unfolding key_of sorted
IsPositional-Agrees f c d p q h =
    let same : c.args ≡ d.args =
      sym (append-nil c.args) ∙ (ground (arith, p, q, h) ∙ append-nil d.args) in
    ground (arith, p, q, same)

module _ {A V : Type 0} ⦃e : Eq A⦄ (hash_any : Option (List (Element A) → ℕ)) (f : Call A → V)
    (maxsize : ℕ) (name : String) (a : A) where
  abbrev pub positional : Call A
  positional = record { args = item name a ∷ []; kwds = [] }

  abbrev pub by_keyword : Call A
  by_keyword = record { args = []; kwds = (name, a) ∷ [] }

  abbrev cached : ℕ → Wrapper A V
  cached hits = record {
    cache = (key_of hash_any positional, f positional) ∷ [];
    hits = hits;
    misses = 1;
  }

  missed : 0 < maxsize → wrapper hash_any f maxsize init positional ≡ some (f positional, cached 0)
  unfolding wrapper miss Dict.get
  missed room = ground arith

  hit : wrapper hash_any f maxsize (cached 0) by_keyword ≡ some (f positional, cached 1)
  unfolding wrapper key_of sorted Dict.get Dict.remove
  hit =
      let k = key_of hash_any positional in
      let same = eq_refl {A = Key A} k in
      let removed : Dict.remove ((k, f positional) ∷ []) k ≡ [] = ground (arith, same) in
      rw (same, wrapper)
        (ap
          (λ d.
            some
              (f positional, record { cache = d ++ (k, f positional) ∷ []; hits = 1; misses = 1 }))
          removed)

  -- Whatever the function, a call whose positional argument is a tuple of a name and a value makes the
  -- memoized function answer a later call with that value as the keyword argument of that name from
  -- the cache, with the result of the first.
  pub calls_collide :
      0 < maxsize
      → (w : Wrapper A V) × (calls hash_any f maxsize init (positional ∷ by_keyword ∷ [])
          ≡ some (f positional ∷ f positional ∷ [], w))
        × (w.hits ≡ 1)
  unfolding calls
  calls_collide room = (cached 1, ground (arith, missed room, hit), refl)
