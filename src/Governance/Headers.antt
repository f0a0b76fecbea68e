-- ===== src/Governance/Headers.antt =====
-- src/pyon/core/governance/__init__.py, class GovernanceHeaderValues: what governance takes from a
-- message's headers.
use scioncc.Prelude.{
  ◌≡◌, refl, String, Bool, true, false, not, ◌&&◌, ◌||◌, Bool-cases, ◌⊎◌, Option, none, some, [],
  ◌∷◌, ◌==◌, if◌then◌else◌, string_eq, Result, ok, err, Option-cases, inl, inr, arith,
}
use scioncc.Prelude.Dict
use scioncc.Prelude.Dict.{Dict}
use scioncc.Governance.{GovernanceError, bad_request, inconsistent, attribute_error, RoleHeader}

-- A header's value: a text, the roles, or a process, which may have a name.
pub data HeaderValue : Type 0 where
  text : String → HeaderValue
  role_table : RoleHeader → HeaderValue
  process : Option String → HeaderValue

abbrev pub MessageHeaders : Type 0
MessageHeaders = Dict String HeaderValue

pub record GovernanceHeaderValues : Type 0 where
  pub op : HeaderValue
  pub process_name : String
  pub actor_id : HeaderValue
  pub actor_roles : HeaderValue
  pub resource_id : HeaderValue
  pub user_context_id : Option HeaderValue

-- The name of `headers['process']`: reading it off what has none raises.
unfoldable pub named_process : HeaderValue → Result GovernanceError String
named_process (text s) = err attribute_error
named_process (role_table t) = err attribute_error
named_process (process none) = err attribute_error
named_process (process (some name)) = ok (if name == "" then "Unknown-Process" else name)

-- `process` is none where it is None or has no name.
unfoldable pub process_name_of : MessageHeaders → Option String → Result GovernanceError String
unfolding named_process
process_name_of headers (some name) = ok name
process_name_of headers none = elim (Dict.get headers "process") [
  | none ↦ ok "Unknown-Process"
  | some value ↦ named_process value
]

unfoldable pub init :
    MessageHeaders → Option String → Bool → Result GovernanceError GovernanceHeaderValues
unfolding process_name_of
init [] process_ resource_id_required = err bad_request
init (entry ∷ entries) process_ resource_id_required =
    let headers : MessageHeaders = entry ∷ entries in
    let op_ : HeaderValue = elim (Dict.get headers "op") [
      | none ↦ text "Unknown-Operation"
      | some v ↦ v
    ] in
    elim (process_name_of headers process_) [
      | err e ↦ err e
      | ok name ↦ elim (Dict.get headers "ion-actor-id") [
        | none ↦ err inconsistent
        | some actor ↦ elim (Dict.get headers "ion-actor-roles") [
          | none ↦ err inconsistent
          | some actor_roles_ ↦ elim (Dict.get headers "resource-id") [
            | some resource ↦ ok (record {
              op = op_;
              process_name = name;
              actor_id = actor;
              actor_roles = actor_roles_;
              resource_id = resource;
              user_context_id = Dict.get headers "user-context-id";
            })
            | none ↦
                if resource_id_required
                then err inconsistent
                else ok (record {
                  op = op_;
                  process_name = name;
                  actor_id = actor;
                  actor_roles = actor_roles_;
                  resource_id = text "";
                  user_context_id = Dict.get headers "user-context-id";
                })
          ]
        ]
      ]
    ]

-- Headers that are not empty, read for a process with a name, are accepted exactly if they have the
-- actor, the roles and, where it is required, the resource. Then each of the values is the header's:
-- the actor, the roles, the user context, the resource or an empty text, the operation or the text
-- for an unknown one; and the process's name is the given one. Whatever is refused is refused as
-- inconsistent.
pub init_iff :
    (entry : String × HeaderValue) (entries : MessageHeaders) (name : String) (required : Bool)
    → let headers = entry ∷ entries in
      let accepted =
        Dict.has_key headers "ion-actor-id"
        && Dict.has_key headers "ion-actor-roles"
        && (Dict.has_key headers "resource-id" || not required) in
      ((accepted ≡ false) × (init headers (some name) required ≡ err inconsistent))
      ⊎ ((accepted ≡ true)
          × (v : GovernanceHeaderValues) × (init headers (some name) required ≡ ok v)
          × (Dict.get headers "ion-actor-id" ≡ some v.actor_id)
          × (Dict.get headers "ion-actor-roles" ≡ some v.actor_roles)
          × (Dict.get headers "user-context-id" ≡ v.user_context_id)
          × ((Dict.get headers "resource-id" ≡ some v.resource_id)
              ⊎ ((Dict.get headers "resource-id" ≡ none) × (v.resource_id ≡ text "")))
          × ((Dict.get headers "op" ≡ some v.op)
              ⊎ ((Dict.get headers "op" ≡ none) × (v.op ≡ text "Unknown-Operation")))
          × (v.process_name ≡ name))
unfolding init process_name_of
init_iff entry entries name required =
    let headers : MessageHeaders = entry ∷ entries in
    let taken : HeaderValue → HeaderValue → HeaderValue → GovernanceHeaderValues =
      λ actor table resource. record {
        op = elim (Dict.get headers "op") [ none ↦ text "Unknown-Operation" | some v ↦ v ];
        process_name = name;
        actor_id = actor;
        actor_roles = table;
        resource_id = resource;
        user_context_id = Dict.get headers "user-context-id";
      } in
    let operation : ((Dict.get headers "op" ≡ some (taken (text "") (text "") (text "")).op)
        ⊎ ((Dict.get headers "op" ≡ none)
            × ((taken (text "") (text "") (text "")).op ≡ text "Unknown-Operation"))) =
      elim (Option-cases (Dict.get headers "op")) [
        | inl o ↦ inr (o, rw o refl)
        | inr (v, o) ↦ inl (rw o refl)
      ] in
    elim (Option-cases (Dict.get headers "ion-actor-id")) [
      | inl a ↦ inl (ground (arith, a))
      | inr (actor, a) ↦ elim (Option-cases (Dict.get headers "ion-actor-roles")) [
        | inl b ↦ inl (ground (arith, a, b))
        | inr (table, b) ↦ elim (Option-cases (Dict.get headers "resource-id")) [
          | inl r ↦ elim (Bool-cases required) [
            | inl q ↦ inl (ground (arith, a, b, r, q))
            | inr q ↦ inr (
              ground (arith, a, b, r, q),
              taken actor table (text ""),
              ground (arith, a, b, r, q),
              a,
              b,
              refl,
              inr (r, refl),
              operation,
              refl,
            )
          ]
          | inr (resource, r) ↦ inr (
            ground (arith, a, b, r),
            taken actor table resource,
            ground (arith, a, b, r),
            a,
            b,
            refl,
            inl r,
            operation,
            refl,
          )
        ]
      ]
    ]
