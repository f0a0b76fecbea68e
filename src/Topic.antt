-- ===== src/Topic.antt =====
-- src/pyon/net/transport.py, class TopicTrie: bindings stored in a trie by their dotted tokens, and the
-- search for all that match a routing key. Python's sets are lists that hold a value once. A node's
-- `token` repeats the key under which its parent holds it.
pub mod Matches
pub mod Paths
pub mod Search
pub mod Complete
pub mod Bindings
mod Tests
use Prim.Native.Char.{Char, code}
use Prim.Native.String
use scioncc.Prelude.{
  String, Bool, Option, none, some, List, [], ◌∷◌, ◌++◌, Eq, ◌==◌, if◌then◌else◌, append_new,
  remove_first, dedupe, nat_eq, string_eq,
}

abbrev split_step : Char → List String → List String
split_step c [] = []
split_step c (t ∷ ts) = if code c == b'.' then "" ∷ t ∷ ts else String.◌∷◌ c t ∷ ts

-- s.split(".")
unfoldable pub split : String → List String
split String.[] = "" ∷ []
split (String.◌∷◌ c s) = split_step c (split s)

mutual
  pub data Node (P : Type 0) : Type 0 where
    node : (token : Option String) → (patterns : List P) → Children P → Node P

  pub data Children (P : Type 0) : Type 0 where
    nil : Children P
    child : String → Node P → Children P → Children P

-- `self.root`
abbrev pub TopicTrie : Type 0 → Type 0
TopicTrie P = Node P

module _ {P : Type 0} where
  -- Node(token)
  abbrev pub new_node : Option String → Node P
  new_node token = node token [] nil

  abbrev pub patterns : Node P → List P
  patterns (node token ps cs) = ps

  unfoldable pub get_child : Children P → String → Option (Node P)
  get_child nil k = none
  get_child (child j n cs) k = if j == k then some n else get_child cs k

  -- `get_or_create_child` in a tree without sharing: what `f` makes of the child, which is created
  -- where it is missing, stands in its place.
  unfoldable pub update_child : Children P → String → (Node P → Node P) → Children P
  update_child nil k f = child k (f (new_node (some k))) nil
  update_child (child j n cs) k f =
      if j == k then child j (f n) cs else child j n (update_child cs k f)

  -- The loop over the tokens, and what is done to the terminal node's patterns.
  unfoldable pub update_path : List String → (List P → List P) → Node P → Node P
  update_path [] f (node token ps cs) = node token (f ps) cs
  update_path (k ∷ ks) f (node token ps cs) = node token ps (update_child cs k (update_path ks f))

  -- The loop `for i in xrange(len(topics))` of the '#' branch.
  unfoldable pub suffixes : (List String → List P) → List String → List P
  suffixes f [] = []
  suffixes f (t ∷ ts) = f (t ∷ ts) ++ suffixes f ts

  abbrev pub call : Option (List String → List P) → List String → List P
  call none ts = []
  call (some f) ts = f ts

  abbrev pub patterns_of : Option (Node P) → List P
  patterns_of none = []
  patterns_of (some n) = patterns n

module _ {P : Type 0} ⦃e : Eq P⦄ where
  -- The '#' branch: the set of what all suffixes find below the child, then the child's patterns.
  abbrev pub hash_matches : Option (List String → List P) → Option (Node P) → List String → List P
  hash_matches none n ts = []
  hash_matches (some f) n ts = dedupe (suffixes f ts) ++ patterns_of n

  -- `Node.get_all_matches`, and the same of the child that a token names.
  unfoldable mutual
    pub node_matches : Node P → List String → List P
    node_matches (node token ps cs) [] = ps
    node_matches (node token ps cs) (cur ∷ rem) =
        call (child_matches cs cur) rem
        ++ (call (child_matches cs "*") rem
            ++ hash_matches (child_matches cs "#") (get_child cs "#") (cur ∷ rem))

    pub child_matches : Children P → String → Option (List String → List P)
    child_matches nil k = none
    child_matches (child j n cs) k = if j == k then some (node_matches n) else child_matches cs k

  unfoldable pub add_topic_tree : TopicTrie P → String → P → TopicTrie P
  add_topic_tree root topic_tree pattern =
      update_path (split topic_tree) (λ ps. append_new ps pattern) root

  unfoldable pub remove_topic_tree : TopicTrie P → String → P → TopicTrie P
  remove_topic_tree root topic_tree pattern =
      update_path (split topic_tree) (λ ps. remove_first ps pattern) root

  unfoldable pub get_all_matches : TopicTrie P → String → List P
  get_all_matches root topic_tree = dedupe (node_matches root (split topic_tree))
