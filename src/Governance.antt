-- ===== src/Governance.antt =====
-- src/pyon/core/governance/__init__.py: the roles and the commitments that policies ask for. The
-- queries of the resource registry are a parameter, which may raise; what a function logs and then
-- ignores leaves the value that the source goes on with.
pub mod Queries
pub mod Headers
pub mod Roles
pub mod Committed
mod Tests
use scioncc.Prelude.{
  ℕ, String, Bool, true, false, not, ◌&&◌, ◌||◌, Option, none, some, List, [], ◌∷◌, ◌++◌, map, ◌==◌,
  if◌then◌else◌, ltb, nat_eq, string_eq, option_eq, is_some, contains, Result, ok, err,
}
use scioncc.Prelude.Int.{ℤ, pos, negsuc}
use scioncc.Prelude.Dict
use scioncc.Prelude.Dict.{Dict}

pub record UserRole : Type 0 where
  pub org_governance_name : String
  pub governance_name : String

pub record Commitment : Type 0 where
  pub consumer : String
  -- the text of a number of milliseconds; 0 is never
  pub expiration : String
  pub exclusive : Bool

pub record ResourceCommitmentStatus : Type 0 where
  pub shared : Bool
  pub exclusive : Bool

pub data GovernanceError : Type 0 where
  bad_request inconsistent attribute_error : GovernanceError

-- What the code asks of the container's resource registry and configuration, and of Python.
pub record Registry (X : Type 0) : Type 0 where
  -- find_objects(actor_id, hasRole, UserRole)
  pub roles_of : String → Result X (List UserRole)
  -- find_resources(ActorIdentity, name=system_actor_name), their ids
  pub system_actors : Result X (List String)
  -- find_objects(principal_id, hasCommitment, Commitment)
  pub commitments_of : String → Result X (List Commitment)
  -- find_subjects(Commitment, hasTarget, resource_id)
  pub commitments_on : String → Result X (List Commitment)
  -- find_objects(resource_id, hasOwner, ActorIdentity)
  pub owners_of : String → Result X (List String)
  pub system_root_org_name : String
  -- Python's `int` of a text: none is its ValueError
  pub int_of : String → Option ℤ

abbrev pub anonymous_actor : String
anonymous_actor = "anonymous"

abbrev pub member_role : String
member_role = "MEMBER"

-- Role names by the governance name of an Org.
abbrev pub RoleHeader : Type 0
RoleHeader = Dict String (List String)

pub record ActorHeader : Type 0 where
  pub ion_actor_id : String
  pub ion_actor_roles : RoleHeader

-- A role's name, or a list to search.
mutual
  pub data RoleName : Type 0 where
    role : String → RoleName
    roles : RoleNames → RoleName

  pub data RoleNames : Type 0 where
    no_roles : RoleNames
    more_roles : RoleName → RoleNames → RoleNames

unfoldable pub get_role_message_headers : Dict String (List UserRole) → RoleHeader
get_role_message_headers [] = []
get_role_message_headers ((org, rs) ∷ org_roles) =
    (org, map (λ r. r.governance_name) rs) ∷ get_role_message_headers org_roles

-- The empty text counts as None.
unfoldable pub build_actor_header : String → RoleHeader → ActorHeader
build_actor_header actor_id actor_roles = record {
  ion_actor_id = if actor_id == "" then anonymous_actor else actor_id;
  ion_actor_roles = actor_roles;
}

-- `role_dict[org].append(name)`, with an empty list where the org is new
unfoldable pub add_role : RoleHeader → String → String → RoleHeader
add_role role_dict org name = elim (Dict.get role_dict org) [
  | none ↦ Dict.put role_dict org (name ∷ [])
  | some names ↦ Dict.put role_dict org (names ++ name ∷ [])
]

unfoldable pub add_roles : RoleHeader → List UserRole → RoleHeader
unfolding add_role
add_roles role_dict [] = role_dict
add_roles role_dict (r ∷ role_list) =
    add_roles (add_role role_dict r.org_governance_name r.governance_name) role_list

abbrev pub has_role : RoleHeader → String → String → Bool
has_role role_header org name = elim (Dict.get role_header org) [
  | none ↦ false
  | some names ↦ contains names name
]

mutual
  -- has_org_role with all parameters set
  pub has_org_role : RoleHeader → String → RoleName → Bool
  has_org_role role_header org (role name) = has_role role_header org name
  has_org_role role_header org (roles names) = has_any_role role_header org names

  pub has_any_role : RoleHeader → String → RoleNames → Bool
  has_any_role role_header org no_roles = false
  has_any_role role_header org (more_roles name names) =
      has_org_role role_header org name || has_any_role role_header org names

-- has_org_role
unfoldable pub check_org_role :
    Option RoleHeader → Option String → Option RoleName → Result GovernanceError Bool
check_org_role (some role_header) (some org) (some name) = ok (has_org_role role_header org name)
check_org_role none org name = err bad_request
check_org_role (some role_header) none name = err bad_request
check_org_role (some role_header) (some org) none = err bad_request

abbrev pub is_unexpired : ℕ → ℤ → Bool
is_unexpired cur_time (pos n) = (n == 0) || (ltb 0 n && ltb cur_time n)
is_unexpired cur_time (negsuc n) = false

module _ (int_of : String → Option ℤ) where
  -- The condition of `[found for found in commitments if …]`: none is the ValueError of `int`, which is
  -- read for the consumer's own commitments only.
  unfoldable pub is_valid : ℕ → Option String → Commitment → Option Bool
  is_valid cur_time consumer_id found =
      if not (is_some consumer_id) || (some found.consumer == consumer_id)
      then elim (int_of found.expiration) [ none ↦ none | some n ↦ some (is_unexpired cur_time n) ]
      else some false

  unfoldable pub valid_ones : ℕ → Option String → List Commitment → Option (List Commitment)
  unfolding is_valid
  valid_ones cur_time consumer_id [] = some []
  valid_ones cur_time consumer_id (found ∷ coms) = elim (is_valid cur_time consumer_id found) [
    | none ↦ none
    | some valid ↦ elim (valid_ones cur_time consumer_id coms) [
      | none ↦ none
      | some rest ↦ some (if valid then found ∷ rest else rest)
    ]
  ]

  abbrev pub unless_empty : Option (List Commitment) → Option (List Commitment)
  unless_empty none = none
  unless_empty (some []) = none
  unless_empty (some (found ∷ rest)) = some (found ∷ rest)

  -- A query's answer made into a list of the commitments that are valid, if there are any; every
  -- exception is logged and ends in None.
  unfoldable pub valid_commitments :
      {X : Type 0} → ℕ → Option String → Result X (List Commitment) → Option (List Commitment)
  unfolding valid_ones
  valid_commitments cur_time consumer_id (err x) = none
  valid_commitments cur_time consumer_id (ok coms) =
      unless_empty (valid_ones cur_time consumer_id coms)

-- The loop for an exclusive commitment, which returns at the first.
unfoldable pub find_exclusive : List Commitment → Bool
find_exclusive [] = false
find_exclusive (found ∷ coms) =
    let rest = find_exclusive coms in if found.exclusive then true else rest
