-- ===== src/Governance/Committed.antt =====
-- src/pyon/core/governance/__init__.py: what it takes to hold a commitment for a resource.
use scioncc.Prelude.{
  Result, ℕ, ◌<◌, ◌≡◌, ◌↔◌, Option, ◌⊎◌, String, Bool, true, false, some, List, [], ◌∷◌, In, nat_eq,
  string_eq, option_eq,
}
use scioncc.Prelude.Int.{ℤ, pos}
use scioncc.Governance.{GovernanceError, Commitment, Registry, valid_ones}
use scioncc.Governance.Queries.{
  has_valid_shared_resource_commitment, has_valid_exclusive_resource_commitment,
}

module _ (int_of : String → Option ℤ) (t : ℕ) (a : String) where
  -- It is the actor's, and its expiration reads as 0 or as a later time.
  abbrev pub IsHeld : Commitment → Type 0
  IsHeld c =
      (c.consumer ≡ a)
      × ((int_of c.expiration ≡ some (pos 0))
          ⊎ ((n : ℕ) × (int_of c.expiration ≡ some (pos n)) × (t < n)))

  -- The expirations of the actor's commitments are numbers.
  abbrev pub AreReadable : List Commitment → Type 0
  AreReadable cs =
      (c : Commitment) → In c cs → c.consumer ≡ a → (n : ℤ) × (int_of c.expiration ≡ some n)

  -- The list is there if every expiration of the actor's is a number, and holds what the actor holds.
  record Selects (cs vs : List Commitment) : Type 0 where
    found : valid_ones int_of t (some a) cs ≡ some vs
    readable : AreReadable cs
    holds : (c : Commitment) → In c vs ↔ (In c cs × IsHeld c)

abbrev is_nonempty : List Commitment → Bool
is_nonempty [] = false
is_nonempty (c ∷ cs) = true

module _ {X : Type 0} (rr : Registry X) where
  abbrev shared : ℕ → String → String → Result GovernanceError Bool
  shared t a r = has_valid_shared_resource_commitment rr t (some a) (some r)

  abbrev exclusive : ℕ → String → String → Result GovernanceError Bool
  exclusive t a r = has_valid_exclusive_resource_commitment rr t (some a) (some r)
