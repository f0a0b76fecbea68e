-- ===== src/Memoize/Calls.antt =====
-- src/pyon/util/memoize.py, `memoize_lru`: sequences of calls of the wrapper.
use mathlib.Core.Path.{subst}
use scioncc.Prelude.{
  ℕ, ◌+◌, ◌≤◌, ◌<◌, ◌≡◌, refl, ap, Option, none, some, List, [], ◌∷◌, ◌++◌, map, Eq, ◌==◌, sym, ◌∙◌,
  leb, length, length-append, arith, eq_iff, Option-cases, Bool-cases, inl, inr,
}
use scioncc.Prelude.Dict
use scioncc.Prelude.Dict.{Dict}
use scioncc.Memoize.{
  Element, Call, Key, key_eq, element_eq, key_of, Wrapper, popitem, miss, wrapper,
}

module _ {A V : Type 0} where
  -- Of the calls in question, those with one key have one result.
  abbrev pub Agrees : Option (List (Element A) → ℕ) → (Call A → Type 0) → (Call A → V) → Type 0
  Agrees hash_any P f =
      (c d : Call A) → P c → P d → key_of hash_any c ≡ key_of hash_any d → f c ≡ f d

module _ {A : Type 0} where
  abbrev pub AreAll : (Call A → Type 0) → List (Call A) → Type 0
  AreAll P [] = Unit
  AreAll P (c ∷ cs) = P c × AreAll P cs

module _ {A V : Type 0} ⦃e : Eq A⦄ (hash_any : Option (List (Element A) → ℕ)) (P : Call A → Type 0)
    (f : Call A → V) (maxsize : ℕ) where
  -- Each entry is the function's value at the calls with its key.
  abbrev pub AreValues : Dict (Key A) V → Type 0
  AreValues [] = Unit
  AreValues ((k, v) ∷ d) = ((c : Call A) → P c → key_of hash_any c ≡ k → v ≡ f c) × AreValues d

  pub record IsValid (w : Wrapper A V) : Type 0 where
    pub values : AreValues w.cache
    pub bounded : length w.cache ≤ maxsize

  get-AreValues :
      (d : Dict (Key A) V) (c : Call A) (v : V)
      → P c
      → AreValues d
      → Dict.get d (key_of hash_any c) ≡ some v
      → v ≡ f c
  unfolding Dict.get
  get-AreValues [] c v p all h = ground arith
  get-AreValues ((j, u) ∷ d) c v p all h = elim (Bool-cases (j == key_of hash_any c)) [
    | inl same ↦ ground (arith, h, same) ∙ all.0 c p (sym ((eq_iff j (key_of hash_any c)).0 same))
    | inr other ↦ get-AreValues d c v p all.1 (ground (arith, h, other))
  ]

  AreValues-snoc :
      (d : Dict (Key A) V) (k : Key A) (v : V)
      → AreValues d
      → ((c : Call A) → P c → key_of hash_any c ≡ k → v ≡ f c)
      → AreValues (d ++ (k, v) ∷ [])
  AreValues-snoc [] k v all h = (h, tt)
  AreValues-snoc (p ∷ d) k v all h = (all.0, AreValues-snoc d k v all.1 h)

  AreValues-remove : (d : Dict (Key A) V) (k : Key A) → AreValues d → AreValues (Dict.remove d k)
  unfolding Dict.remove
  AreValues-remove [] k all = tt
  AreValues-remove ((j, u) ∷ d) k all = elim (Bool-cases (j == k)) [
    | inl same ↦ rw same (AreValues-remove d k all.1)
    | inr other ↦ rw other (all.0, AreValues-remove d k all.1)
  ]

  AreValues-popitem :
      (d rest : Dict (Key A) V) → popitem d ≡ some rest → AreValues d → AreValues rest
  AreValues-popitem [] rest h all = cc
  AreValues-popitem (p ∷ d) rest h all =
      subst AreValues (let q : d ≡ rest = ground (arith, h) in q) all.1

  length-remove_le : (d : Dict (Key A) V) (k : Key A) → length (Dict.remove d k) ≤ length d
  unfolding Dict.remove
  length-remove_le [] k = ground arith
  length-remove_le ((j, u) ∷ d) k = ground (arith, length-remove_le d k)

  length-remove :
      (d : Dict (Key A) V) (k : Key A) (v : V)
      → Dict.get d k ≡ some v
      → length (Dict.remove d k) + 1 ≤ length d
  unfolding Dict.get Dict.remove
  length-remove [] k v h = ground arith
  length-remove ((j, u) ∷ d) k v h = ground (arith, length-remove d k v, length-remove_le d k)

  -- What a call answers and leaves.
  pub record Answers (w w' : Wrapper A V) : Type 0 where
    pub valid : IsValid w'
    pub counted : w'.hits + w'.misses ≡ (w.hits + w.misses) + 1

  stored-Answers :
      (w : Wrapper A V) (c : Call A) (d : Dict (Key A) V)
      → Agrees hash_any P f
      → P c
      → AreValues d
      → length d + 1 ≤ maxsize
      → Answers w (record w { cache = d ++ (key_of hash_any c, f c) ∷ []; misses = w.misses + 1 })
  stored-Answers w c d agrees p all room = record {
    valid = record {
      values = AreValues-snoc d (key_of hash_any c) (f c) all (λ c' p' h. agrees c c' p p' (sym h));
      bounded = ground (arith, length-append d ((key_of hash_any c, f c) ∷ []));
    };
    counted = ground arith;
  }

  miss-Answers :
      (w : Wrapper A V) (c : Call A)
      → 0 < maxsize
      → Agrees hash_any P f
      → P c
      → IsValid w
      → (w' : Wrapper A V) × (miss hash_any f maxsize w c ≡ some (f c, w')) × Answers w w'
  unfolding miss
  miss-Answers w c some_room agrees p v = elim (Bool-cases (leb maxsize (length w.cache))) [
    | inr room ↦
        (_, rw (room, miss) refl, stored-Answers w c w.cache agrees p v.values (ground arith))
    | inl full ↦ elim (Option-cases (popitem w.cache)) [
      | inl empty ↦ absurd (ground arith)
      | inr (rest, popped) ↦ (
        _,
        rw (full, popped, miss) refl,
        stored-Answers w c rest agrees p (AreValues-popitem w.cache rest popped v.values)
            (ground (arith, v.bounded)),
      )
    ]
  ]

  hit-Answers :
      (w : Wrapper A V) (c : Call A) (v : V)
      → Agrees hash_any P f
      → P c
      → IsValid w
      → Dict.get w.cache (key_of hash_any c) ≡ some v
      → let k = key_of hash_any c in
        Answers w (record w { cache = Dict.remove w.cache k ++ (k, v) ∷ []; hits = w.hits + 1 })
  hit-Answers w c v agrees p valid at =
      let k = key_of hash_any c in
      let is_value = get-AreValues w.cache c v p valid.values at in
      record {
        valid = record {
          values =
              AreValues-snoc (Dict.remove w.cache k) k v (AreValues-remove w.cache k valid.values)
                (λ c' p' h. is_value ∙ agrees c c' p p' (sym h));
          bounded = ground (
            arith,
            length-append (Dict.remove w.cache k) ((k, v) ∷ []),
            length-remove w.cache k v at,
            valid.bounded,
          );
        };
        counted = ground arith;
      }

  wrapper-Answers :
      (w : Wrapper A V) (c : Call A)
      → 0 < maxsize
      → Agrees hash_any P f
      → P c
      → IsValid w
      → (w' : Wrapper A V) × (wrapper hash_any f maxsize w c ≡ some (f c, w')) × Answers w w'
  unfolding wrapper
  wrapper-Answers w c some_room agrees p valid =
      let k = key_of hash_any c in
      elim (Option-cases (Dict.get w.cache k)) [
        | inl missing ↦
            let (w', called, answers) = miss-Answers w c some_room agrees p valid in
            (w', rw (missing, wrapper) called, answers)
        | inr (v, at) ↦ (
          _,
          rw (at, wrapper)
              (ap
                (λ u.
                  some (
                    u,
                    record w { cache = Dict.remove w.cache k ++ (k, v) ∷ []; hits = w.hits + 1 },
                  ))
                (get-AreValues w.cache c v p valid.values at)),
          hit-Answers w c v agrees p valid at,
        )
      ]

module _ {A V : Type 0} ⦃e : Eq A⦄ (hash_any : Option (List (Element A) → ℕ)) (f : Call A → V)
    (maxsize : ℕ) where
  -- The results of calls one after the other.
  unfoldable pub calls : Wrapper A V → List (Call A) → Option (List V × Wrapper A V)
  calls w [] = some ([], w)
  calls w (c ∷ cs) = elim (wrapper hash_any f maxsize w c) [
    | none ↦ none
    | some (v, w') ↦ elim (calls w' cs) [ none ↦ none | some (vs, w'') ↦ some (v ∷ vs, w'') ]
  ]

  -- With room for one entry at least, and among calls of which any two with one key have one result
  -- (as all positional calls do without `use_hash_any`): all return, with what the function itself
  -- returns; the cache never holds more than `maxsize` entries, and each call is counted as a hit or
  -- as a miss.
  pub calls-eq_map :
      (P : Call A → Type 0) (cs : List (Call A)) (w : Wrapper A V)
      → 0 < maxsize
      → Agrees hash_any P f
      → AreAll P cs
      → IsValid hash_any P f maxsize w
      → (w' : Wrapper A V) × (calls w cs ≡ some (map f cs, w'))
        × (length w'.cache ≤ maxsize)
        × (w'.hits + w'.misses ≡ (w.hits + w.misses) + length cs)
  unfolding calls
  calls-eq_map P [] w room agrees all v = (w, refl, v.bounded, ground arith)
  calls-eq_map P (c ∷ cs) w room agrees all v =
      let (w', called, answers) = wrapper-Answers hash_any P f maxsize w c room agrees all.0 v in
      let (w'', rest, bounded, counted) = calls-eq_map P cs w' room agrees all.1 answers.valid in
      (w'', ground (arith, called, rest), bounded, ground (arith, counted, answers.counted))
