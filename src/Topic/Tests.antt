-- ===== src/Topic/Tests.antt =====
-- A small exchange, and the theorems at it.
use scioncc.Prelude.{
  String, ◌≡◌, refl, ◌↔◌, true, List, [], ◌∷◌, In, IsNodup, contains, append_new, remove_first,
  dedupe, string_eq, list_eq,
}
use scioncc.Topic.{
  split, get_child, update_child, update_path, suffixes, node_matches, child_matches,
  add_topic_tree, remove_topic_tree, get_all_matches,
}
use scioncc.Topic.Matches.{Matches, TopicMatch, EndsHard}
use scioncc.Topic.Bindings.{
  Call, add, remove, built, in_force, get_all_matches-built, get_all_matches-TopicMatch,
}

abbrev calls : List (Call String)
calls =
    remove "c.d" "q3"
    ∷ add "c.d" "q3"
    ∷ add "#.z" "q3"
    ∷ add "a.*" "q2"
    ∷ add "a.#" "q1"
    ∷ add "a.b" "q1"
    ∷ []

abbrev q1 : String
q1 = "q1"

program : Unit {0}
unfolding split get_child update_child update_path suffixes node_matches child_matches
    add_topic_tree remove_topic_tree get_all_matches contains append_new remove_first dedupe built
    in_force
program = tt

found_below : get_all_matches (built calls) "a.b" ≡ "q2" ∷ "q1" ∷ []
unfolding program
found_below = refl

found_end : get_all_matches (built calls) "x.y.z" ≡ "q3" ∷ []
unfolding program
found_end = refl

found_none : get_all_matches (built calls) "c.d" ≡ []
unfolding program
found_none = refl

get_all_matches-built_example :
    IsNodup (get_all_matches (built calls) "a.b")
    × ((p : String)
        → In p (get_all_matches (built calls) "a.b")
          ↔ ((path : List String) × (in_force calls path p ≡ true) × Matches path (split "a.b")))
get_all_matches-built_example = get_all_matches-built calls "a.b"

get_all_matches-TopicMatch_example :
    (In "q1" (get_all_matches (built calls) "a.b")
      → (path : List String) × (in_force calls path "q1" ≡ true) × TopicMatch path (split "a.b"))
    × ((path : List String)
        → EndsHard path
        → in_force calls path "q1" ≡ true
        → TopicMatch path (split "a.b")
        → In "q1" (get_all_matches (built calls) "a.b"))
get_all_matches-TopicMatch_example = get_all_matches-TopicMatch calls "a.b" "q1"
