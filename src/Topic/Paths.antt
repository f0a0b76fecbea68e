-- ===== src/Topic/Paths.antt =====
-- src/pyon/net/transport.py, class TopicTrie: the patterns at the end of a path of tokens, under the
-- two updates.
use scioncc.Prelude.{
  String, ◌≡◌, refl, Option, none, some, Option-cases, inl, inr, List, [], ◌∷◌, ◌==◌, eq_iff,
  if◌then◌else◌, arith, string_eq, list_eq,
}
use scioncc.Topic.{
  Node, Children, node, nil, child, new_node, patterns, get_child, update_child, update_path,
}

module _ {P : Type 0} where
  -- The patterns stored under a path of tokens, `*` and `#` taken as they are written.
  unfoldable pub patterns_at : List String → Node P → List P
  patterns_at [] (node token ps cs) = ps
  patterns_at (k ∷ ks) (node token ps cs) = elim (get_child cs k) [
    | none ↦ []
    | some n ↦ patterns_at ks n
  ]

  pub get_child-update_child :
      (cs : Children P) (k j : String) (f : Node P → Node P)
      → get_child (update_child cs k f) j ≡ (
          if k == j
          then some (elim (get_child cs k) [ none ↦ f (new_node (some k)) | some n ↦ f n ])
          else get_child cs j)
  unfolding get_child update_child
  get_child-update_child nil k j f = refl
  get_child-update_child (child i n cs) k j f =
      ground (arith, get_child-update_child cs k j f, eq_iff i k, eq_iff i j, eq_iff k j)

  pub patterns_at-nil : (n : Node P) → patterns_at [] n ≡ patterns n
  unfolding patterns_at
  patterns_at-nil (node token ps cs) = refl

  pub patterns_at-new_node :
      (ks : List String) (k : Option String) → patterns_at ks (new_node {P = P} k) ≡ []
  unfolding patterns_at get_child
  patterns_at-new_node [] k = refl
  patterns_at-new_node (j ∷ ks) k = refl

  -- An update changes the patterns at its own path, by its function, and at no other path.
  pub patterns_at-update_path :
      (ks js : List String) (f : List P → List P) (n : Node P)
      → patterns_at js (update_path ks f n)
        ≡ (if ks == js then f (patterns_at ks n) else patterns_at js n)
  unfolding patterns_at update_path
  patterns_at-update_path [] [] f (node token ps cs) = refl
  patterns_at-update_path [] (j ∷ js) f (node token ps cs) = refl
  patterns_at-update_path (k ∷ ks) [] f (node token ps cs) = refl
  patterns_at-update_path (k ∷ ks) (j ∷ js) f (node token ps cs) =
      elim (Option-cases (get_child cs k)) [
        | inl missing ↦ ground (
          arith,
          get_child-update_child cs k j (update_path ks f),
          eq_iff k j,
          patterns_at-update_path ks js f (new_node (some k)),
          patterns_at-new_node ks (some k),
          patterns_at-new_node js (some k),
        )
        | inr (found, at) ↦ ground (
          arith,
          get_child-update_child cs k j (update_path ks f),
          eq_iff k j,
          patterns_at-update_path ks js f found,
        )
      ]
