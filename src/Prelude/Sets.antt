-- ===== src/Prelude/Sets.antt =====
-- Python's `in`, `append` if absent, `list.remove` and `set(...)` on lists of comparable values.
use mathlib.Core.Path.{◌≡◌, refl}
use mathlib.Core.Logic.{◌↔◌}
use mathlib.Core.Bool.{Bool, true, false, ◌||◌}
use mathlib.Core.List.{List, [], ◌∷◌, ◌++◌}
use native.Mathlib.Omega.{arith}
use scioncc.Prelude.Tests.{Eq, ◌==◌, eq_iff, if◌then◌else◌}
use scioncc.Prelude.Lists.{In}

module _ {A : Type 0} ⦃e : Eq A⦄ where
  -- `a in xs`
  unfoldable pub contains : List A → A → Bool
  contains [] a = false
  contains (x ∷ xs) a = (x == a) || contains xs a

  -- `if not a in xs: xs.append(a)`
  unfoldable pub append_new : List A → A → List A
  append_new xs a = if contains xs a then xs else xs ++ (a ∷ [])

  -- `if a in xs: xs.remove(a)`, which takes the first one out
  unfoldable pub remove_first : List A → A → List A
  remove_first [] a = []
  remove_first (x ∷ xs) a = if x == a then xs else x ∷ remove_first xs a

  -- `set(xs)`
  unfoldable pub dedupe : List A → List A
  dedupe [] = []
  dedupe (x ∷ xs) = let rest = dedupe xs in if contains rest x then rest else x ∷ rest

  abbrev pub IsNodup : List A → Type 0
  IsNodup [] = Unit
  IsNodup (x ∷ xs) = (contains xs x ≡ false) × IsNodup xs

  pub contains_iff : (xs : List A) (a : A) → (contains xs a ≡ true) ↔ In a xs
  unfolding contains
  contains_iff [] a = (λ h. cc, λ h. absurd h)
  contains_iff (x ∷ xs) a = ground (arith, eq_iff x a, contains_iff xs a)

  contains-snoc :
      (xs : List A) (a b : A) → contains (xs ++ (a ∷ [])) b ≡ (contains xs b || (a == b))
  unfolding contains
  contains-snoc [] a b = ground arith
  contains-snoc (x ∷ xs) a b = ground (arith, contains-snoc xs a b)

  pub contains-append_new :
      (xs : List A) (a b : A) → contains (append_new xs a) b ≡ ((a == b) || contains xs b)
  unfolding append_new
  contains-append_new xs a b = ground (arith, contains-snoc xs a b, eq_iff a b)

  IsNodup-snoc :
      (xs : List A) (a : A) → contains xs a ≡ false → IsNodup xs → IsNodup (xs ++ (a ∷ []))
  unfolding contains
  IsNodup-snoc [] a new h = (refl, tt)
  IsNodup-snoc (x ∷ xs) a new h =
      ground (arith, IsNodup-snoc xs a, contains-snoc xs a x, eq_iff x a, eq_iff a x)

  pub IsNodup-append_new : (xs : List A) (a : A) → IsNodup xs → IsNodup (append_new xs a)
  unfolding append_new
  IsNodup-append_new xs a h = ground (arith, IsNodup-snoc xs a)

  -- Where no value stands twice, `remove_first` leaves exactly the others.
  pub contains-remove_first :
      (xs : List A) (a b : A)
      → IsNodup xs
      → contains (remove_first xs a) b ≡ (if a == b then false else contains xs b)
  unfolding contains remove_first
  contains-remove_first [] a b h = ground arith
  contains-remove_first (x ∷ xs) a b h =
      ground (arith, contains-remove_first xs a b h.1, eq_iff x a, eq_iff a b, eq_iff x b)

  pub IsNodup-remove_first : (xs : List A) (a : A) → IsNodup xs → IsNodup (remove_first xs a)
  unfolding remove_first
  IsNodup-remove_first [] a h = tt
  IsNodup-remove_first (x ∷ xs) a h =
      ground (arith, IsNodup-remove_first xs a h.1, contains-remove_first xs a x h.1)

  pub In-dedupe : (xs : List A) (a : A) → In a (dedupe xs) ↔ In a xs
  unfolding dedupe
  In-dedupe [] a = (λ h. h, λ h. h)
  In-dedupe (x ∷ xs) a = ground (arith, In-dedupe xs a, contains_iff (dedupe xs) x)

  pub IsNodup-dedupe : (xs : List A) → IsNodup (dedupe xs)
  unfolding dedupe
  IsNodup-dedupe [] = tt
  IsNodup-dedupe (x ∷ xs) = ground (arith, IsNodup-dedupe xs)
