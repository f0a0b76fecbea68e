-- ===== src/Governance/Tests.antt =====
-- A registry with one operator, one exclusive commitment, and headers of a message.
use scioncc.Prelude.{
  ◌≡◌, ◌↔◌, ◌⊎◌, refl, String, true, false, not, ◌&&◌, ◌||◌, none, some, [], ◌∷◌, In, string_eq, ok,
  ◌==◌, if◌then◌else◌, err,
}
use scioncc.Prelude.Dict
use scioncc.Governance.{
  UserRole, Commitment, Registry, RoleHeader, RoleName, role, roles, no_roles, more_roles,
  member_role, has_org_role, inconsistent,
}
use scioncc.Prelude.Int.{pos}
use scioncc.Governance.Queries.{find_roles_by_actor}
use scioncc.Governance.Roles.{Lists, names_of, find_roles_by_actor-has_org_role}
use scioncc.Governance.Headers.{text, MessageHeaders, GovernanceHeaderValues, init, init_iff}

abbrev operator : UserRole
operator = record { org_governance_name = "Org2"; governance_name = "OPERATOR" }

abbrev lease : Commitment
lease = record { consumer = "actor"; expiration = "100"; exclusive = true }

abbrev registry : Registry String
registry = record {
  roles_of = λ actor. ok (operator ∷ []);
  system_actors = ok ("ionsystem" ∷ []);
  commitments_of = λ principal. ok [];
  commitments_on = λ resource. ok (lease ∷ []);
  owners_of = λ resource. err "down";
  system_root_org_name = "ION";
  int_of = λ text. if text == "100" then some (pos 100) else none;
}

abbrev asked : RoleName
asked = roles (more_roles (role "MANAGER") (more_roles (role "OPERATOR") no_roles))

find_roles_by_actor-has_org_role_example :
    (h : RoleHeader) × (find_roles_by_actor registry (some "actor") ≡ ok (ok h))
    × ((has_org_role h "Org2" asked ≡ true) ↔ (
        (n : String) × In n (names_of asked)
        × (Lists (operator ∷ []) "Org2" n ⊎ ((◌≡◌ {A = String} "Org2" "ION") × (n ≡ member_role)))))
find_roles_by_actor-has_org_role_example =
    find_roles_by_actor-has_org_role registry "actor" (operator ∷ []) "Org2" asked refl refl

abbrev others : MessageHeaders
others = ("ion-actor-roles", text "roles") ∷ []

init_iff_example :
    let headers = ("ion-actor-id", text "actor") ∷ others in
    let accepted =
      Dict.has_key headers "ion-actor-id"
      && Dict.has_key headers "ion-actor-roles"
      && (Dict.has_key headers "resource-id" || not true) in
    ((accepted ≡ false) × (init headers (some "svc") true ≡ err inconsistent))
    ⊎ ((accepted ≡ true)
        × (v : GovernanceHeaderValues) × (init headers (some "svc") true ≡ ok v)
        × (Dict.get headers "ion-actor-id" ≡ some v.actor_id)
        × (Dict.get headers "ion-actor-roles" ≡ some v.actor_roles)
        × (Dict.get headers "user-context-id" ≡ v.user_context_id)
        × ((Dict.get headers "resource-id" ≡ some v.resource_id)
            ⊎ ((Dict.get headers "resource-id" ≡ none) × (v.resource_id ≡ text "")))
        × ((Dict.get headers "op" ≡ some v.op)
            ⊎ ((Dict.get headers "op" ≡ none) × (v.op ≡ text "Unknown-Operation")))
        × (v.process_name ≡ "svc"))
init_iff_example = init_iff ("ion-actor-id", text "actor") others "svc" true
