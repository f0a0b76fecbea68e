-- ===== src/Memoize.antt =====
-- src/pyon/util/memoize.py, `memoize_lru`: the wrapper of a function by a cache. The function returns
-- and has no effects. The cache is an OrderedDict, whose list has the least recently used entry first.
pub mod Calls
pub mod Colliding
mod Tests
use Prim.Native.Char.{code}
use scioncc.Prelude.{
  ℕ, ◌+◌, String, Bool, true, false, ◌&&◌, ◌↔◌, ◌≡◌, arith, eq_iff, nat_eq, string_eq, list_eq,
  Option, none, some, List, [], ◌∷◌, ◌++◌, Eq, ◌==◌, if◌then◌else◌, leb, ltb, length,
}
use scioncc.Prelude.Dict
use scioncc.Prelude.Dict.{Dict}

-- What an argument, or an element of a key, is: a tuple of a text and a value, or another value.
pub data Element (A : Type 0) : Type 0 where
  item : String → A → Element A
  other : A → Element A

-- A call's positional arguments, and those by keyword: `kwds` has each name once.
pub record Call (A : Type 0) : Type 0 where
  pub args : List (Element A)
  pub kwds : List (String × A)

-- A key: the tuple, or its hash where `use_hash_any` is set.
pub data Key (A : Type 0) : Type 0 where
  tuple : List (Element A) → Key A
  hashed : ℕ → Key A

module _ {A : Type 0} ⦃e : Eq A⦄ where
  abbrev element_beq : Element A → Element A → Bool
  element_beq (item k a) (item l b) = (k == l) && (a == b)
  element_beq (item k a) (other b) = false
  element_beq (other a) (item l b) = false
  element_beq (other a) (other b) = a == b

  pub element_beq_iff : (x y : Element A) → (element_beq x y ≡ true) ↔ (x ≡ y)
  element_beq_iff (item k a) (item l b) = ground (arith, eq_iff k l, eq_iff a b)
  element_beq_iff (item k a) (other b) = (λ h. cc, λ h. cc)
  element_beq_iff (other a) (item l b) = (λ h. cc, λ h. cc)
  element_beq_iff (other a) (other b) = ground (arith, eq_iff a b)

  instance abbrev pub element_eq : Eq (Element A)
  element_eq = record { equal = element_beq; agrees = element_beq_iff }

  abbrev key_beq : Key A → Key A → Bool
  key_beq (tuple x) (tuple y) = x == y
  key_beq (tuple x) (hashed n) = false
  key_beq (hashed m) (tuple y) = false
  key_beq (hashed m) (hashed n) = m == n

  pub key_beq_iff : (x y : Key A) → (key_beq x y ≡ true) ↔ (x ≡ y)
  key_beq_iff (tuple x) (tuple y) = ground (arith, eq_iff x y)
  key_beq_iff (tuple x) (hashed n) = (λ h. cc, λ h. cc)
  key_beq_iff (hashed m) (tuple y) = (λ h. cc, λ h. cc)
  key_beq_iff (hashed m) (hashed n) = ground (arith, eq_iff m n)

  instance abbrev pub key_eq : Eq (Key A)
  key_eq = record { equal = key_beq; agrees = key_beq_iff }

-- The order of two names.
unfoldable pub name_le : String → String → Bool
name_le String.[] t = true
name_le (String.◌∷◌ c s) String.[] = false
name_le (String.◌∷◌ c s) (String.◌∷◌ d t) =
    let rest = name_le s t in if code c == code d then rest else ltb (code c) (code d)

module _ {A : Type 0} where
  abbrev put_in_order : String × A → List (String × A) → List (String × A)
  put_in_order p [] = p ∷ []
  put_in_order p (q ∷ items) = if name_le p.0 q.0 then p ∷ q ∷ items else q ∷ put_in_order p items

  abbrev in_order : List (String × A) → List (String × A)
  in_order [] = []
  in_order (p ∷ items) = put_in_order p (in_order items)

  abbrev elements : List (String × A) → List (Element A)
  elements [] = []
  elements ((k, a) ∷ items) = item k a ∷ elements items

  -- `tuple(sorted(kwds.items()))`: names are different, so values are not compared.
  unfoldable pub sorted : List (String × A) → List (Element A)
  unfolding name_le
  sorted kwds = elements (in_order kwds)

  -- `hash_any` is given where `use_hash_any` is set.
  unfoldable pub key_of : Option (List (Element A) → ℕ) → Call A → Key A
  unfolding sorted
  key_of hash_any c =
      let key = c.args ++ sorted c.kwds in
      elim hash_any [ none ↦ tuple key | some hash ↦ hashed (hash key) ]

pub record Wrapper (A V : Type 0) : Type 0 where
  pub cache : Dict (Key A) V
  pub hits : ℕ
  pub misses : ℕ

module _ {A V : Type 0} where
  abbrev pub init : Wrapper A V
  init = record { cache = []; hits = 0; misses = 0 }

  -- `cache.popitem(0)`: none is the KeyError of an empty cache.
  abbrev pub popitem : Dict (Key A) V → Option (Dict (Key A) V)
  popitem [] = none
  popitem (p ∷ cache) = some cache

module _ {A V : Type 0} ⦃e : Eq A⦄ (hash_any : Option (List (Element A) → ℕ))
    (user_function : Call A → V) (maxsize : ℕ) where
  -- The branch of a key that is not in the cache.
  unfoldable pub miss : Wrapper A V → Call A → Option (V × Wrapper A V)
  unfolding key_of
  miss w c =
      let key = key_of hash_any c in
      let result = user_function c in
      let stored : Dict (Key A) V → Option (V × Wrapper A V) = λ cache.
        some (result, record w { cache = cache ++ (key, result) ∷ []; misses = w.misses + 1 }) in
      if leb maxsize (length w.cache)
      then elim (popitem w.cache) [ none ↦ none | some rest ↦ stored rest ]
      else stored w.cache

  unfoldable pub wrapper : Wrapper A V → Call A → Option (V × Wrapper A V)
  unfolding key_of miss
  wrapper w c =
      let key = key_of hash_any c in
      elim (Dict.get w.cache key) [
        | some result ↦ some (
          result,
          record w { cache = Dict.remove w.cache key ++ (key, result) ∷ []; hits = w.hits + 1 },
        )
        | none ↦ miss w c
      ]
