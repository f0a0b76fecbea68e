-- ===== src/Topic/Bindings.antt =====
-- src/pyon/net/transport.py, class TopicTrie: the trie as a set of bindings, under calls of
-- add_topic_tree and remove_topic_tree.
use scioncc.Prelude.{
  String, ◌≡◌, sym, ◌∙◌, ◌++◌, ◌↔◌, Bool, true, false, none, List, [], ◌∷◌, ◌&&◌, Eq, ◌==◌, eq_iff,
  eq_refl, if◌then◌else◌, arith, Bool-cases, inl, inr, In, In-dedupe, contains, contains_iff,
  contains-append_new, contains-remove_first, IsNodup, IsNodup-append_new, IsNodup-remove_first,
  IsNodup-dedupe, string_eq, list_eq,
}
use mathlib.Core.Path.{subst}
use scioncc.Topic.{
  node_matches, TopicTrie, new_node, split, add_topic_tree, remove_topic_tree, get_all_matches,
}
use scioncc.Topic.Matches.{
  Matches, TopicMatch, Matches→TopicMatch, EndsHard, TopicMatch→Matches, NoHash, trailing_hash,
}
use scioncc.Topic.Paths.{patterns_at, patterns_at-new_node, patterns_at-update_path}
use scioncc.Topic.Complete.{node_matches_iff}

-- A call on the trie.
pub data Call (P : Type 0) : Type 0 where
  add : (topic_tree : String) → P → Call P
  remove : (topic_tree : String) → P → Call P

module _ {P : Type 0} ⦃e : Eq P⦄ where
  abbrev pub perform : TopicTrie P → Call P → TopicTrie P
  perform trie (add topic_tree p) = add_topic_tree trie topic_tree p
  perform trie (remove topic_tree p) = remove_topic_tree trie topic_tree p

  -- The calls, the latest one first, on a new trie.
  unfoldable pub built : List (Call P) → TopicTrie P
  built [] = new_node none
  built (c ∷ earlier) = perform (built earlier) c

  -- Whether the last call that names this path and pattern added it.
  unfoldable pub in_force : List (Call P) → List String → P → Bool
  in_force [] path p = false
  in_force (add topic_tree q ∷ earlier) path p =
      if (split topic_tree == path) && (q == p) then true else in_force earlier path p
  in_force (remove topic_tree q ∷ earlier) path p =
      if (split topic_tree == path) && (q == p) then false else in_force earlier path p

  pub record Holds (trie : TopicTrie P) (path : List String) (listed : P → Bool) : Type 0 where
    pub distinct : IsNodup (patterns_at path trie)
    pub stored : (p : P) → contains (patterns_at path trie) p ≡ listed p

  -- One call at one path, from what the trie holds there before.
  module _ (trie : TopicTrie P) (topic_tree : String) (q : P) (path : List String)
      (listed : P → Bool) (h : Holds trie path listed) where
    pub add-Holds :
        Holds
          (add_topic_tree trie topic_tree q)
          path
          (λ p. if (split topic_tree == path) && (q == p) then true else listed p)
    unfolding add_topic_tree
    add-Holds = elim (Bool-cases (split topic_tree == path)) [
      | inl same ↦ record {
        distinct =
            rw (patterns_at-update_path, same, (eq_iff (split topic_tree) path).0 same)
              (IsNodup-append_new (patterns_at path trie) q h.distinct);
        stored = λ p.
            rw (patterns_at-update_path, same, (eq_iff (split topic_tree) path).0 same)
              (ground (arith, contains-append_new (patterns_at path trie) q p, h.stored p));
      }
      | inr other ↦ record {
        distinct = rw (patterns_at-update_path, other) h.distinct;
        stored = λ p. rw (patterns_at-update_path, other) (h.stored p);
      }
    ]

    pub remove-Holds :
        Holds
          (remove_topic_tree trie topic_tree q)
          path
          (λ p. if (split topic_tree == path) && (q == p) then false else listed p)
    unfolding remove_topic_tree
    remove-Holds = elim (Bool-cases (split topic_tree == path)) [
      | inl same ↦ record {
        distinct =
            rw (patterns_at-update_path, same, (eq_iff (split topic_tree) path).0 same)
              (IsNodup-remove_first (patterns_at path trie) q h.distinct);
        stored = λ p.
            rw (patterns_at-update_path, same, (eq_iff (split topic_tree) path).0 same)
              (ground
                (arith, contains-remove_first (patterns_at path trie) q p h.distinct, h.stored p));
      }
      | inr other ↦ record {
        distinct = rw (patterns_at-update_path, other) h.distinct;
        stored = λ p. rw (patterns_at-update_path, other) (h.stored p);
      }
    ]

  built-Holds :
      (calls : List (Call P)) (path : List String) → Holds (built calls) path (in_force calls path)
  unfolding built in_force contains
  built-Holds [] path = record {
    distinct = rw patterns_at-new_node tt;
    stored = λ p. rw patterns_at-new_node;
  }
  built-Holds (add topic_tree q ∷ earlier) path =
      add-Holds (built earlier) topic_tree q path (in_force earlier path) (built-Holds earlier path)
  built-Holds (remove topic_tree q ∷ earlier) path =
      remove-Holds (built earlier) topic_tree q path (in_force earlier path)
        (built-Holds earlier path)

  in_force_of_stored :
      (calls : List (Call P)) (path : List String) (p : P)
      → In p (patterns_at path (built calls))
      → in_force calls path p ≡ true
  in_force_of_stored calls path p h =
      sym ((built-Holds calls path).stored p)
      ∙ (contains_iff (patterns_at path (built calls)) p).1 h

  stored_of_in_force :
      (calls : List (Call P)) (path : List String) (p : P)
      → in_force calls path p ≡ true
      → In p (patterns_at path (built calls))
  stored_of_in_force calls path p h =
      (contains_iff (patterns_at path (built calls)) p).0 ((built-Holds calls path).stored p ∙ h)

  only_path :
      (topic_tree : String) (p : P) (path : List String)
      → in_force (add topic_tree p ∷ []) path p ≡ true
      → split topic_tree ≡ path
  unfolding in_force
  only_path topic_tree p path h = (eq_iff (split topic_tree) path).0 (ground (arith, eq_refl p))

  -- The result has no pattern twice, and a pattern stands in it exactly when it is bound, by the
  -- latest call that names the binding, on some path of tokens that matches the key.
  pub get_all_matches-built :
      (calls : List (Call P)) (key : String)
      → IsNodup (get_all_matches (built calls) key)
        × ((p : P)
            → In p (get_all_matches (built calls) key)
              ↔ ((path : List String) × (in_force calls path p ≡ true) × Matches path (split key)))
  unfolding get_all_matches
  get_all_matches-built calls key = (
    IsNodup-dedupe (node_matches (built calls) (split key)),
    λ p. (
      (λ h.
          let (path, stored, m) =
            (node_matches_iff p (built calls) (split key)).0
              ((In-dedupe (node_matches (built calls) (split key)) p).0 h) in
          (path, in_force_of_stored calls path p stored, m)),
      λ (path, bound, m). (In-dedupe (node_matches (built calls) (split key)) p).1 (
          (node_matches_iff p (built calls) (split key)).1
            (path, stored_of_in_force calls path p bound, m)),
    ),
  )

  -- Against an AMQP topic exchange: whatever is returned has a binding that the exchange matches,
  -- and each binding that the exchange matches is returned, if its last token is not '#'.
  pub get_all_matches-TopicMatch :
      (calls : List (Call P)) (key : String) (p : P)
      → (In p (get_all_matches (built calls) key)
          → (path : List String) × (in_force calls path p ≡ true) × TopicMatch path (split key))
        × ((path : List String)
            → EndsHard path
            → in_force calls path p ≡ true
            → TopicMatch path (split key)
            → In p (get_all_matches (built calls) key))
  get_all_matches-TopicMatch calls key p =
      let (sound, complete) = (get_all_matches-built calls key).1 p in
      (
        (λ h. let (path, bound, m) = sound h in (path, bound, Matches→TopicMatch m)),
        λ path hard bound m. complete (path, bound, TopicMatch→Matches hard m),
      )

  -- A binding that ends in '#' after tokens that match the whole key is not returned, though a topic
  -- exchange matches it, '#' standing for no token there.
  get_all_matches-trailing_hash :
      (topic_tree key : String) (p : P) (ps : List String)
      → split topic_tree ≡ ps ++ "#" ∷ []
      → NoHash ps
      → Matches ps (split key)
      → TopicMatch (split topic_tree) (split key)
        × (¬ In p (get_all_matches (built (add topic_tree p ∷ [])) key))
  get_all_matches-trailing_hash topic_tree key p ps shape free m =
      let (amqp, missed) = trailing_hash free m in
      (
        rw shape amqp,
        λ h.
            let (path, bound, m') = ((get_all_matches-built (add topic_tree p ∷ []) key).1 p).0 h in
            missed (
              subst (λ path'. Matches path' (split key))
                (sym (only_path topic_tree p path bound) ∙ shape) m'),
      )
