-- ===== src/Governance/Roles.antt =====
-- src/pyon/core/governance/__init__.py: the roles that an actor is found to have.
use mathlib.Core.Path.{subst}
use scioncc.Prelude.{
  ◌≡◌, ◌↔◌, ◌⊎◌, refl, sym, ap, String, Bool, true, false, ◌&&◌, ◌||◌, Bool-cases, Option-cases,
  some, inl, inr, List, [], ◌∷◌, ◌++◌, In, In-append, In-append_left, In-append_right, contains,
  ◌==◌, eq_iff, string_eq, ok, arith,
}
use scioncc.Prelude.Dict
use scioncc.Prelude.Dict.{get-put, get-empty}
use scioncc.Governance.{
  UserRole, Registry, RoleHeader, RoleName, RoleNames, role, roles, no_roles, more_roles,
  member_role, has_role, has_org_role, has_any_role, add_role, add_roles,
}
use scioncc.Governance.Queries.{find_roles_by_actor}

contains-snoc :
    (xs : List String) (a b : String) → contains (xs ++ a ∷ []) b ≡ (contains xs b || (a == b))
unfolding contains
contains-snoc [] a b = ground arith
contains-snoc (x ∷ xs) a b = ground (arith, contains-snoc xs a b)

has_role-add_role :
    (h : RoleHeader) (org name o n : String)
    → has_role (add_role h org name) o n ≡ (((org == o) && (name == n)) || has_role h o n)
unfolding add_role contains
has_role-add_role h org name o n = elim (Option-cases (Dict.get h org)) [
  | inl e ↦ ground (arith, e, get-put h org o (name ∷ []), eq_iff org o)
  | inr (ns, e) ↦
      ground (arith, e, get-put h org o (ns ++ name ∷ []), eq_iff org o, contains-snoc ns name n)
]

-- Some role of the list has the Org's name and its own.
abbrev pub Lists : List UserRole → String → String → Type 0
Lists rs o n = (r : UserRole) × In r rs × (r.org_governance_name ≡ o) × (r.governance_name ≡ n)

has_role-add_roles :
    (rs : List UserRole) (h : RoleHeader) (o n : String)
    → (has_role (add_roles h rs) o n ≡ true) ↔ (Lists rs o n ⊎ (has_role h o n ≡ true))
unfolding add_roles
has_role-add_roles [] h o n = (λ e. inr e, λ e. elim e [ inl l ↦ absurd l.1 | inr x ↦ x ])
has_role-add_roles (r ∷ rs) h o n =
    let h' : RoleHeader = add_role h r.org_governance_name r.governance_name in
    let rest = has_role-add_roles rs h' o n in
    let step = has_role-add_role h r.org_governance_name r.governance_name o n in
    let first = eq_iff r.org_governance_name o in
    let second = eq_iff r.governance_name n in
    (
      λ e. elim (rest.0 e) [
        | inl (x, i, p, q) ↦ inl (x, inr i, p, q)
        | inr e' ↦ elim (Bool-cases (has_role h o n)) [
          | inl k ↦ inr k
          | inr k ↦
              (let both : ((r.org_governance_name == o) && (r.governance_name == n)) ≡ true =
                  ground (arith, step, e', k) in
                inl (r, inl refl, ground (arith, first, both), ground (arith, second, both)))
        ]
      ],
      λ l. rest.1 (elim l [
        | inl (x, i, p, q) ↦ elim i [
          | inl e ↦ inr (
              ground (
                arith,
                step,
                first,
                second,
                ap (λ z. z.org_governance_name) e,
                ap (λ z. z.governance_name) e,
                p,
                q,
              ))
          | inr j ↦ inl (x, j, p, q)
        ]
        | inr e ↦ inr (ground (arith, step, e))
      ]),
    )

-- The leaves of what has_org_role is asked for.
mutual
  pub names_of : RoleName → List String
  names_of (role n) = n ∷ []
  names_of (roles ns) = names_of_all ns

  pub names_of_all : RoleNames → List String
  names_of_all no_roles = []
  names_of_all (more_roles r rs) = names_of r ++ names_of_all rs

mutual
  unfolding has_org_role names_of

  has_org_role-In :
      (h : RoleHeader) (org : String) (r : RoleName)
      → (has_org_role h org r ≡ true)
        ↔ ((n : String) × In n (names_of r) × (has_role h org n ≡ true))
  has_org_role-In h org (role n) = (
    λ e. (n, inl refl, e),
    λ (m, i, e). elim i [ inl p ↦ subst (λ z. has_role h org z ≡ true) p e | inr q ↦ absurd q ],
  )
  has_org_role-In h org (roles rs) = has_any_role-In h org rs

  has_any_role-In :
      (h : RoleHeader) (org : String) (rs : RoleNames)
      → (has_any_role h org rs ≡ true)
        ↔ ((n : String) × In n (names_of_all rs) × (has_role h org n ≡ true))
  has_any_role-In h org no_roles = (λ e. cc, λ x. absurd x.1)
  has_any_role-In h org (more_roles r rs) = (
    λ e. elim (Bool-cases (has_org_role h org r)) [
      | inl k ↦
          (let (n, i, x) = (has_org_role-In h org r).0 k in
            (n, In-append_left n (names_of r) (names_of_all rs) i, x))
      | inr k ↦
          (let (n, i, x) = (has_any_role-In h org rs).0 (ground (arith, e, k)) in
            (n, In-append_right n (names_of r) (names_of_all rs) i, x))
    ],
    λ (n, i, x). elim (In-append n (names_of r) (names_of_all rs) i) [
      | inl j ↦ (let one = (has_org_role-In h org r).1 (n, j, x) in ground (arith, one))
      | inr j ↦ (let one = (has_any_role-In h org rs).1 (n, j, x) in ground (arith, one))
    ],
  )

nothing : (o n : String) → has_role [] o n ≡ false
unfolding Dict.get
nothing o n = refl

differ : {b : Bool} → b ≡ true → b ≡ false → ⊥
differ p q = ground (arith, p, q)

module _ {X : Type 0} (rr : Registry X) where
  grants :
      (rs : List UserRole) (o n : String)
      → (has_role (add_role (add_roles [] rs) rr.system_root_org_name member_role) o n ≡ true)
        ↔ (Lists rs o n ⊎ ((o ≡ rr.system_root_org_name) × (n ≡ member_role)))
  grants rs o n =
      let root = rr.system_root_org_name in
      let step = has_role-add_role (add_roles [] rs) root member_role o n in
      let rest = has_role-add_roles rs [] o n in
      let empty : has_role [] o n ≡ false = nothing o n in
      let first = eq_iff root o in
      let second = eq_iff {A = String} member_role n in
      (
        λ e. elim (Bool-cases (has_role (add_roles [] rs) o n)) [
          | inl k ↦ elim (rest.0 k) [ inl l ↦ inl l | inr x ↦ absurd (differ x empty) ]
          | inr k ↦
              (let both : ((root == o) && (member_role == n)) ≡ true = ground (arith, step, e, k) in
                inr (sym (first.0 (ground (arith, both))), sym (second.0 (ground (arith, both)))))
        ],
        λ l. elim l [
          | inl x ↦ (let k = rest.1 (inl x) in ground (arith, step, k))
          | inr (p, q) ↦
              (let f = first.1 (sym p) in let s = second.1 (sym q) in ground (arith, step, f, s))
        ],
      )

  -- For an actor with an id, where the registry answers with a list of roles: the header found says
  -- that the actor has, in an Org, one of the names asked for, however they are nested, exactly if a
  -- role of the list has that Org and name, or the Org is the system's root Org and the name MEMBER.
  pub find_roles_by_actor-has_org_role :
      (actor : String) (rs : List UserRole) (org : String) (asked : RoleName)
      → (actor == "") ≡ false
      → rr.roles_of actor ≡ ok rs
      → (h : RoleHeader) × (find_roles_by_actor rr (some actor) ≡ ok (ok h))
        × ((has_org_role h org asked ≡ true) ↔ (
            (n : String) × In n (names_of asked)
            × (Lists rs org n ⊎ ((org ≡ rr.system_root_org_name) × (n ≡ member_role)))))
  unfolding find_roles_by_actor
  find_roles_by_actor-has_org_role actor rs org asked named q =
      let h₀ : RoleHeader = add_roles [] rs in
      let h : RoleHeader = add_role h₀ rr.system_root_org_name member_role in
      let own = grants rs org in
      let asked_for = has_org_role-In h org asked in
      (
        h,
        ground (arith, named, q),
        (
          λ e. (let (n, i, x) = asked_for.0 e in (n, i, (own n).0 x)),
          λ (n, i, x). asked_for.1 (n, i, (own n).1 x),
        ),
      )
