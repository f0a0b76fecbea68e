-- ===== src/Router/Stored.antt =====
-- src/pyon/net/transport.py, class LocalRouter: the bindings in the tries of the exchanges.
use scioncc.Prelude.{
  String, ◌≡◌, refl, Bool, true, false, Option, none, some, List, [], ◌∷◌, ◌&&◌, ◌||◌, ◌==◌, eq_iff,
  if◌then◌else◌, arith, contains, IsNodup, string_eq, list_eq, pair_eq, Option-cases, inl, inr,
  Bool-cases, ◌++◌, remove_first,
}
use scioncc.Prelude.Dict
use scioncc.Prelude.Dict.{Dict, get-put, get-remove}
use scioncc.Topic.{TopicTrie, new_node, split, add_topic_tree, remove_topic_tree}
use scioncc.Topic.Paths.{patterns_at, patterns_at-new_node}
use scioncc.Topic.Bindings.{Holds, add-Holds, remove-Holds}
use scioncc.Router.{remove_binding, remove_bindings}

abbrev pub Exchanges : Type 0
Exchanges = Dict String (TopicTrie String)

abbrev pub trie_stored : Option (TopicTrie String) → List String → String → Bool
trie_stored none path q = false
trie_stored (some trie) path q = contains (patterns_at path trie) q

abbrev pub TrieDistinct : Option (TopicTrie String) → List String → Type 0
TrieDistinct none path = Unit
TrieDistinct (some trie) path = IsNodup (patterns_at path trie)

-- The queue `q` is bound on the exchange by this path of tokens.
abbrev pub stored : Exchanges → String → List String → String → Bool
stored es ex path q = trie_stored (Dict.get es ex) path q

abbrev pub AreDistinct : Exchanges → Type 0
AreDistinct es = (ex : String) (path : List String) → TrieDistinct (Dict.get es ex) path

-- A binding (ex, b) among those recorded has this exchange and path.
unfoldable pub recorded : List (String × String) → String → List String → Bool
recorded [] ex path = false
recorded ((ex', b) ∷ bs) ex path = ((ex' == ex) && (split b == path)) || recorded bs ex path

pub recorded-snoc :
    (bs : List (String × String)) (x b ex : String) (path : List String)
    → recorded (bs ++ (x, b) ∷ []) ex path
      ≡ (recorded bs ex path || ((x == ex) && (split b == path)))
unfolding recorded
recorded-snoc [] x b ex path = ground arith
recorded-snoc ((x', b') ∷ bs) x b ex path = ground (arith, recorded-snoc bs x b ex path)

-- Taking one record out leaves those of other exchanges and paths.
pub recorded-remove_first :
    (bs : List (String × String)) (x b ex : String) (path : List String)
    → recorded bs ex path ≡ true
    → ((x == ex) && (split b == path)) ≡ false
    → recorded (remove_first bs (x, b)) ex path ≡ true
unfolding recorded remove_first
recorded-remove_first [] x b ex path h other = h
recorded-remove_first ((x', b') ∷ bs) x b ex path h other =
    ground (arith, recorded-remove_first bs x b ex path, eq_iff x' x, eq_iff b' b)

-- A new exchange holds nothing, and a deleted one holds nothing.
module _ (es : Exchanges) (distinct : AreDistinct es) (x : String) where
  pub AreDistinct-new : AreDistinct (Dict.put es x (new_node none))
  AreDistinct-new ex path = elim (Bool-cases (x == ex)) [
    | inl same ↦ rw (get-put es x ex (new_node none), same) (rw patterns_at-new_node tt)
    | inr other ↦ rw (get-put es x ex (new_node none), other) (distinct ex path)
  ]

  pub stored-new :
      (ex : String) (path : List String) (q : String)
      → stored (Dict.put es x (new_node none)) ex path q
        ≡ (if x == ex then false else stored es ex path q)
  unfolding contains
  stored-new ex path q =
      ground (arith, get-put es x ex (new_node none), patterns_at-new_node {P = String} path none)

  pub AreDistinct-delete : AreDistinct (Dict.remove es x)
  AreDistinct-delete ex path = elim (Bool-cases (x == ex)) [
    | inl same ↦ rw (get-remove es x ex, same) tt
    | inr other ↦ rw (get-remove es x ex, other) (distinct ex path)
  ]

  pub stored-delete :
      (ex : String) (path : List String) (q : String)
      → stored (Dict.remove es x) ex path q ≡ (if x == ex then false else stored es ex path q)
  stored-delete ex path q = ground (arith, get-remove es x ex)

module _ (es : Exchanges) (distinct : AreDistinct es) (x : String) (trie : TopicTrie String)
    (at : Dict.get es x ≡ some trie) (b q : String) where
  Holds-at : (path : List String) → Holds trie path (stored es x path)
  Holds-at path = record { distinct = rw at at (distinct x path); stored = λ p. rw at }

  TrieDistinct-put :
      (ex : String) (path : List String) (new : TopicTrie String)
      → IsNodup (patterns_at path new)
      → TrieDistinct (Dict.get (Dict.put es x new) ex) path
  TrieDistinct-put ex path new h = elim (Bool-cases (x == ex)) [
    | inl same ↦ rw (get-put es x ex new, same) h
    | inr other ↦ rw (get-put es x ex new, other) (distinct ex path)
  ]

  pub stored-add :
      (ex : String) (path : List String) (p : String)
      → stored (Dict.put es x (add_topic_tree trie b q)) ex path p
        ≡ (if (x == ex) && ((split b == path) && (q == p)) then true else stored es ex path p)
  stored-add ex path p = ground (
    arith,
    get-put es x ex (add_topic_tree trie b q),
    eq_iff x ex,
    (add-Holds trie b q path (stored es x path) (Holds-at path)).stored p,
  )

  pub AreDistinct-add : AreDistinct (Dict.put es x (add_topic_tree trie b q))
  AreDistinct-add ex path =
      TrieDistinct-put ex path (add_topic_tree trie b q)
        (add-Holds trie b q path (stored es x path) (Holds-at path)).distinct

  pub stored-remove :
      (ex : String) (path : List String) (p : String)
      → stored (Dict.put es x (remove_topic_tree trie b q)) ex path p
        ≡ (if (x == ex) && ((split b == path) && (q == p)) then false else stored es ex path p)
  stored-remove ex path p = ground (
    arith,
    get-put es x ex (remove_topic_tree trie b q),
    eq_iff x ex,
    (remove-Holds trie b q path (stored es x path) (Holds-at path)).stored p,
  )

  pub AreDistinct-remove : AreDistinct (Dict.put es x (remove_topic_tree trie b q))
  AreDistinct-remove ex path =
      TrieDistinct-put ex path (remove_topic_tree trie b q)
        (remove-Holds trie b q path (stored es x path) (Holds-at path)).distinct

-- Removing one binding, on an exchange that may be missing.
module _ (es : Exchanges) (distinct : AreDistinct es) (q x b : String) where
  pub AreDistinct-remove_binding : AreDistinct (remove_binding es q x b)
  unfolding remove_binding
  AreDistinct-remove_binding = elim (Option-cases (Dict.get es x)) [
    | inl missing ↦ λ ex path. rw (missing, remove_binding) (distinct ex path)
    | inr (trie, at) ↦
        λ ex path. rw (at, remove_binding) (AreDistinct-remove es distinct x trie at b q ex path)
  ]

  pub stored-remove_binding :
      (ex : String) (path : List String) (p : String)
      → stored (remove_binding es q x b) ex path p
        ≡ (if ((x == ex) && (split b == path)) && (q == p) then false else stored es ex path p)
  unfolding remove_binding
  stored-remove_binding ex path p = elim (Option-cases (Dict.get es x)) [
    | inl missing ↦ rw (missing, remove_binding) (ground (arith, missing, eq_iff x ex))
    | inr (trie, at) ↦
        rw (at, remove_binding) (ground (arith, stored-remove es distinct x trie at b q ex path p))
  ]

module _ (q : String) where
  pub AreDistinct-remove_bindings :
      (bs : List (String × String)) (es : Exchanges)
      → AreDistinct es
      → AreDistinct (remove_bindings es q bs)
  unfolding remove_bindings
  AreDistinct-remove_bindings [] es d = d
  AreDistinct-remove_bindings ((x, b) ∷ bs) es d =
      AreDistinct-remove_bindings bs (remove_binding es q x b)
        (AreDistinct-remove_binding es d q x b)

  -- Removing the recorded bindings of a queue takes that queue off their paths, and changes nothing
  -- else.
  pub stored-remove_bindings :
      (bs : List (String × String)) (es : Exchanges) (d : AreDistinct es) (ex : String)
      (path : List String) (p : String)
      → stored (remove_bindings es q bs) ex path p
        ≡ (if recorded bs ex path && (q == p) then false else stored es ex path p)
  unfolding recorded remove_bindings
  stored-remove_bindings [] es d ex path p = refl
  stored-remove_bindings ((x, b) ∷ bs) es d ex path p = ground (
    arith,
    stored-remove_bindings bs (remove_binding es q x b) (AreDistinct-remove_binding es d q x b) ex
        path p,
    stored-remove_binding es d q x b ex path p,
  )
