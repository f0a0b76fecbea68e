-- ===== src/Governance/Queries.antt =====
-- src/pyon/core/governance/__init__.py: the functions that query the resource registry.
use scioncc.Prelude.{
  ℕ, String, Bool, true, false, Option, none, some, List, [], ◌∷◌, ◌==◌, if◌then◌else◌, string_eq,
  option_eq, contains, Result, ok, err,
}
use scioncc.Governance.{
  Commitment, ResourceCommitmentStatus, GovernanceError, bad_request, Registry, anonymous_actor,
  member_role, RoleHeader, ActorHeader, build_actor_header, add_role, add_roles, valid_commitments,
  find_exclusive,
}

module _ {X : Type 0} (rr : Registry X) where
  -- The outer result is the registry's; a missing actor is a BadRequest.
  unfoldable pub find_roles_by_actor : Option String → Result X (Result GovernanceError RoleHeader)
  unfolding add_roles add_role
  find_roles_by_actor none = ok (err bad_request)
  find_roles_by_actor (some actor_id) =
      if actor_id == "" then ok (err bad_request) else elim (rr.roles_of actor_id) [
        | err x ↦ err x
        | ok role_list ↦
            ok (ok (add_role (add_roles [] role_list) rr.system_root_org_name member_role))
      ]

  -- An exception is logged, and the anonymous header stays.
  unfoldable pub get_actor_header : Option String → ActorHeader
  unfolding find_roles_by_actor build_actor_header
  get_actor_header actor_id =
      let anonymous = build_actor_header anonymous_actor [] in
      elim actor_id [
        | none ↦ anonymous
        | some a ↦ elim (find_roles_by_actor (some a)) [
          | err x ↦ anonymous
          | ok (err e) ↦ anonymous
          | ok (ok header_roles) ↦ build_actor_header a header_roles
        ]
      ]

  -- The id of the system actor.
  unfoldable pub get_system_actor : Option String
  get_system_actor = elim rr.system_actors [
    | err x ↦ none
    | ok [] ↦ none
    | ok (a ∷ others) ↦ some a
  ]

  unfoldable pub is_system_actor : String → Bool
  unfolding get_system_actor
  is_system_actor actor_id = get_system_actor == some actor_id

  unfoldable pub get_system_actor_header : Option String → ActorHeader
  unfolding get_actor_header get_system_actor
  get_system_actor_header none = get_actor_header get_system_actor
  get_system_actor_header (some system_actor) = get_actor_header (some system_actor)

  unfoldable pub get_valid_principal_commitments :
      ℕ → Option String → Option String → Option (List Commitment)
  unfolding valid_commitments
  get_valid_principal_commitments cur_time none consumer_id = none
  get_valid_principal_commitments cur_time (some principal_id) consumer_id =
      valid_commitments rr.int_of cur_time consumer_id (rr.commitments_of principal_id)

  unfoldable pub get_valid_resource_commitments :
      ℕ → Option String → Option String → Option (List Commitment)
  unfolding valid_commitments
  get_valid_resource_commitments cur_time none actor_id = none
  get_valid_resource_commitments cur_time (some resource_id) actor_id =
      valid_commitments rr.int_of cur_time actor_id (rr.commitments_on resource_id)

  unfoldable pub has_valid_resource_commitments :
      ℕ → Option String → Option String → ResourceCommitmentStatus
  unfolding get_valid_resource_commitments find_exclusive
  has_valid_resource_commitments cur_time actor_id resource_id =
      elim (get_valid_resource_commitments cur_time resource_id actor_id) [
        | none ↦ record { shared = false; exclusive = false }
        | some commitments ↦ record { shared = true; exclusive = find_exclusive commitments }
      ]

  unfoldable pub has_valid_shared_resource_commitment :
      ℕ → Option String → Option String → Result GovernanceError Bool
  unfolding has_valid_resource_commitments
  has_valid_shared_resource_commitment cur_time none resource_id = err bad_request
  has_valid_shared_resource_commitment cur_time (some actor_id) none = err bad_request
  has_valid_shared_resource_commitment cur_time (some actor_id) (some resource_id) =
      ok (has_valid_resource_commitments cur_time (some actor_id) (some resource_id)).shared

  unfoldable pub has_valid_exclusive_resource_commitment :
      ℕ → Option String → Option String → Result GovernanceError Bool
  unfolding has_valid_resource_commitments
  has_valid_exclusive_resource_commitment cur_time none resource_id = err bad_request
  has_valid_exclusive_resource_commitment cur_time (some actor_id) none = err bad_request
  has_valid_exclusive_resource_commitment cur_time (some actor_id) (some resource_id) =
      let commitment_status =
        has_valid_resource_commitments cur_time (some actor_id) (some resource_id) in
      if commitment_status.shared then ok commitment_status.exclusive else ok false

  unfoldable pub is_resource_owner :
      Option String → Option String → Result X (Result GovernanceError Bool)
  is_resource_owner none resource_id = ok (err bad_request)
  is_resource_owner (some actor_id) none = ok (err bad_request)
  is_resource_owner (some actor_id) (some resource_id) = elim (rr.owners_of resource_id) [
    | err x ↦ err x
    | ok owners ↦ ok (ok (contains owners actor_id))
  ]
