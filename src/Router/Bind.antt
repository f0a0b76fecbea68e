-- ===== src/Router/Bind.antt =====
-- src/pyon/net/transport.py, class LocalRouter: the well-formedness of its state, under bind and
-- unbind.
use scioncc.Prelude.{
  String, ◌≡◌, true, some, List, [], ◌∷◌, ◌++◌, eq_iff, arith, string_eq, nat_eq, list_eq, pair_eq,
  Bool-cases, Option-cases, inl, inr, remove_first,
}
use scioncc.Prelude.Dict
use scioncc.Prelude.Dict.{get-put}
use scioncc.Topic.{TopicTrie, add_topic_tree, remove_topic_tree}
use scioncc.Router.{Router, bindings_of, bind, unbind}
use scioncc.Router.Stored.{
  recorded-snoc, recorded-remove_first, stored-add, stored-remove, AreDistinct-add,
  AreDistinct-remove,
}
use scioncc.Router.Bound.{IsValid}

module _ {Body Props : Type 0} (r : Router Body Props) (x q b : String) (v : IsValid r)
    (trie : TopicTrie String) (at : Dict.get r.exchanges x ≡ some trie)
    (declared : Dict.has_key r.queues q ≡ true) where
  abbrev new_bindings : List (String × String)
  new_bindings = bindings_of r q ++ (x, b) ∷ []

  bound_state-IsValid : IsValid (record r {
    exchanges = Dict.put r.exchanges x (add_topic_tree trie b q);
    bindings_by_queue = Dict.put r.bindings_by_queue q new_bindings;
  })
  bound_state-IsValid = record {
    distinct = AreDistinct-add r.exchanges v.distinct x trie at b q;
    bound = λ ex path p h. ground (
      arith,
      stored-add r.exchanges v.distinct x trie at b q ex path p,
      v.bound ex path p,
      eq_iff q p,
      recorded-snoc (bindings_of r q) x b ex path,
      get-put r.bindings_by_queue q p new_bindings,
    );
    own_object = v.own_object;
    old_object = v.old_object;
  }

  abbrev left_bindings : List (String × String)
  left_bindings = remove_first (bindings_of r q) (x, b)

  unbound_state-IsValid : IsValid (record r {
    exchanges = Dict.put r.exchanges x (remove_topic_tree trie b q);
    bindings_by_queue = Dict.put r.bindings_by_queue q left_bindings;
  })
  unbound_state-IsValid = record {
    distinct = AreDistinct-remove r.exchanges v.distinct x trie at b q;
    bound = λ ex path p h. ground (
      arith,
      stored-remove r.exchanges v.distinct x trie at b q ex path p,
      v.bound ex path p,
      eq_iff q p,
      recorded-remove_first (bindings_of r q) x b ex path,
      get-put r.bindings_by_queue q p left_bindings,
    );
    own_object = v.own_object;
    old_object = v.old_object;
  }

module _ {Body Props : Type 0} (r : Router Body Props) (x q b : String) (v : IsValid r) where
  pub bind-IsValid : IsValid (bind r x q b).1
  unfolding bind
  bind-IsValid = elim (Option-cases (Dict.get r.exchanges x)) [
    | inl missing ↦ rw (missing, bind) v
    | inr (trie, at) ↦ elim (Bool-cases (Dict.has_key r.queues q)) [
      | inl declared ↦ rw (at, declared, bind) (bound_state-IsValid r x q b v trie at declared)
      | inr undeclared ↦ rw (at, undeclared, bind) v
    ]
  ]

  pub unbind-IsValid : IsValid (unbind r x q b).1
  unfolding unbind
  unbind-IsValid = elim (Option-cases (Dict.get r.exchanges x)) [
    | inl missing ↦ rw (missing, unbind) v
    | inr (trie, at) ↦ elim (Bool-cases (Dict.has_key r.queues q)) [
      | inl declared ↦ rw (at, declared, unbind) (unbound_state-IsValid r x q b v trie at declared)
      | inr undeclared ↦ rw (at, undeclared, unbind) v
    ]
  ]
