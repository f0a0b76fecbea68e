-- ===== src/Topic/Search.antt =====
-- src/pyon/net/transport.py, class TopicTrie: from the result of the search to a path that matches.
use scioncc.Prelude.{
  String, ◌≡◌, refl, sym, Option, none, some, List, [], ◌∷◌, Eq, ◌==◌, Option-cases, Bool-cases,
  inl, inr, In, In-append, In-dedupe, dedupe, string_eq,
}
use mathlib.Core.Path.{subst}
use scioncc.Topic.{
  Node, Children, node, nil, child, get_child, suffixes, patterns_of, call, hash_matches,
  node_matches, child_matches,
}
use scioncc.Topic.Matches.{Matches}
use scioncc.Topic.Paths.{patterns_at, patterns_at-nil}

module _ {P : Type 0} where
  abbrev pub Found : P → Node P → List String → Type 0
  Found p n ts = (path : List String) × In p (patterns_at path n) × Matches path ts

  abbrev pub FoundIn : P → Children P → String → List String → Type 0
  FoundIn p cs k ts = (n : Node P) × (get_child cs k ≡ some n) × Found p n ts

  In-call :
      (p : P) (o : Option (List String → List P)) (ts : List String)
      → In p (call o ts)
      → (f : List String → List P) × (o ≡ some f) × In p (f ts)
  In-call p none ts h = absurd h
  In-call p (some f) ts h = (f, refl, h)

  -- What some suffix finds, a '#' in front of its path finds for the whole.
  In-suffixes :
      (p : P) (f : List String → List P) (ts : List String)
      → In p (suffixes f ts)
      → (suf : List String) × In p (f suf)
        × ((path : List String) → Matches path suf → Matches ("#" ∷ path) ts)
  unfolding suffixes
  In-suffixes p f [] h = absurd h
  In-suffixes p f (t ∷ ts) h = elim (In-append p (f (t ∷ ts)) (suffixes f ts) h) [
    | inl now ↦ (t ∷ ts, now, λ path m. Matches.hash_stop refl m)
    | inr later ↦
        let (suf, found, extend) = In-suffixes p f ts later in
        (suf, found, λ path m. Matches.hash_skip refl (extend path m))
  ]

  -- A path below a child is a path of the node.
  at_child :
      (p : P) (token : Option String) (ps : List P) (cs : Children P) (k : String) (n : Node P)
      (path : List String)
      → get_child cs k ≡ some n
      → In p (patterns_at path n)
      → In p (patterns_at (k ∷ path) (node token ps cs))
  unfolding patterns_at
  at_child p token ps cs k n path e h = rw (e, patterns_at) h

  -- The patterns of a child itself stand at the end of a path of one token.
  own_patterns :
      (p : P) (token : Option String) (ps : List P) (cs : Children P) (k : String)
      → In p (patterns_of (get_child cs k))
      → In p (patterns_at (k ∷ []) (node token ps cs))
  unfolding patterns_at
  own_patterns p token ps cs k h = elim (Option-cases (get_child cs k)) [
    | inl missing ↦ absurd (rw missing at h)
    | inr (n, at) ↦ rw (at, patterns_at) (rw (patterns_at-nil n) (rw at at h))
  ]

  some_inj : {f g : List String → List P} → some f ≡ some g → f ≡ g
  some_inj h = cc

module _ {P : Type 0} ⦃e : Eq P⦄ where
  module _ (p : P) (token : Option String) (ps : List P) (cs : Children P)
      (sub : (k : String) (f : List String → List P) (ts : List String)
        → child_matches cs k ≡ some f
        → In p (f ts)
        → FoundIn p cs k ts) where
    found_below :
        (k : String) (ts us : List String)
        → ((path : List String) → Matches path ts → Matches (k ∷ path) us)
        → In p (call (child_matches cs k) ts)
        → Found p (node token ps cs) us
    found_below k ts us extend h =
        let (f, e, h') = In-call p (child_matches cs k) ts h in
        let (n, at, found) = sub k f ts e h' in
        let (path, stored, m) = found in
        (k ∷ path, at_child p token ps cs k n path at stored, extend path m)

    -- What the '#' branch adds, for a key that is not empty.
    found_hash :
        (cur : String) (rem : List String)
        → In p (hash_matches (child_matches cs "#") (get_child cs "#") (cur ∷ rem))
        → Found p (node token ps cs) (cur ∷ rem)
    found_hash cur rem h = elim (Option-cases (child_matches cs "#")) [
      | inl missing ↦ absurd (rw missing at h)
      | inr (f, at) ↦
          elim (In-append p (dedupe (suffixes f (cur ∷ rem))) (patterns_of (get_child cs "#"))
            (rw at at h)) [
              | inl below ↦
                  let (suf, h', extend) =
                    In-suffixes p f (cur ∷ rem) ((In-dedupe (suffixes f (cur ∷ rem)) p).0 below) in
                  let (n, at', found) = sub "#" f suf at h' in
                  let (path, stored, m) = found in
                  ("#" ∷ path, at_child p token ps cs "#" n path at' stored, extend path m)
              | inr own ↦
                  ("#" ∷ [], own_patterns p token ps cs "#" own, Matches.hash_last refl refl)
            ]
    ]

    found_cons :
        (cur : String) (rem : List String)
        → In p (node_matches (node token ps cs) (cur ∷ rem))
        → Found p (node token ps cs) (cur ∷ rem)
    unfolding node_matches
    found_cons cur rem h = elim (In-append p (call (child_matches cs cur) rem) _ h) [
      | inl l ↦ found_below cur rem (cur ∷ rem) (λ path. Matches.literal refl) l
      | inr r ↦ elim (In-append p (call (child_matches cs "*") rem) _ r) [
        | inl l ↦ found_below "*" rem (cur ∷ rem) (λ path. Matches.star refl) l
        | inr hash ↦ found_hash cur rem hash
      ]
    ]

  mutual
    unfolding node_matches get_child patterns_at

    pub node_matches-sound :
        (p : P) (n : Node P) (ts : List String) → In p (node_matches n ts) → Found p n ts
    node_matches-sound p (node token ps cs) [] h = ([], h, Matches.done)
    node_matches-sound p (node token ps cs) (cur ∷ rem) h =
        found_cons p token ps cs (λ k f ts. child_matches_sound p cs k f ts) cur rem h

    pub child_matches_sound :
        (p : P) (cs : Children P) (k : String) (f : List String → List P) (ts : List String)
        → child_matches cs k ≡ some f
        → In p (f ts)
        → FoundIn p cs k ts
    child_matches_sound p nil k f ts found h = cc
    child_matches_sound p (child j n cs) k f ts found h = elim (Bool-cases (j == k)) [
      | inl same ↦ (
        n,
        rw same,
        node_matches-sound p n ts (subst (λ g. In p (g ts)) (sym (some_inj (rw same at found))) h),
      )
      | inr other ↦
          let (n', at, rest) = child_matches_sound p cs k f ts (rw other at found) h in
          (n', rw other at, rest)
    ]
