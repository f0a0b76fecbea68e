-- ===== src/Topic/Complete.antt =====
-- src/pyon/net/transport.py, class TopicTrie: from a path that matches a key to the result of the
-- search.
use scioncc.Prelude.{
  String, ◌≡◌, ap, ◌↔◌, Option, some, List, [], ◌∷◌, ◌++◌, Eq, ◌==◌, Option-cases, Bool-cases, inl,
  inr, ◌⊎◌, In, In-append_left, In-append_right, In-dedupe, dedupe, string_eq,
}
use scioncc.Topic.{
  Node, Children, node, nil, child, get_child, suffixes, patterns, call, node_matches,
  child_matches,
}
use scioncc.Topic.Matches.{Matches, Matches-nil}
use scioncc.Topic.Paths.{patterns_at, patterns_at-nil}
use scioncc.Topic.Search.{Found, node_matches-sound}

module _ {P : Type 0} ⦃e : Eq P⦄ where
  child_matches-eq :
      (cs : Children P) (k : String) (n : Node P)
      → get_child cs k ≡ some n
      → child_matches cs k ≡ some (node_matches n)
  unfolding child_matches get_child
  child_matches-eq nil k n h = cc
  child_matches-eq (child j n' cs) k n h = elim (Bool-cases (j == k)) [
    | inl same ↦ rw same (ap (λ m. some (node_matches m)) (node_inj (rw same at h)))
    | inr other ↦ rw other (child_matches-eq cs k n (rw other at h))
  ]
    where
      node_inj : {a b : Node P} → some a ≡ some b → a ≡ b
      node_inj e = cc

  -- One suffix further on: what the rest of the key finds, unless nothing is left of either.
  skip_one :
      (p : P) (f : List String → List P) (t : String) (ps ts : List String)
      → ((us : List String) → Matches ps us → In p (f us))
      → Matches ps ts
      → (ps ≡ []) ⊎ In p (suffixes f (t ∷ ts))
  unfolding suffixes
  skip_one p f t ps [] ih m = inl (Matches-nil m)
  skip_one p f t ps (u ∷ us) ih m = inr (
      In-append_right p (f (t ∷ u ∷ us)) (suffixes f (u ∷ us))
        (In-append_left p (f (u ∷ us)) (suffixes f us) (ih (u ∷ us) m)))

  hash_complete :
      (p : P) (f : List String → List P) {k : String} {ps ts : List String}
      → ((us : List String) → Matches ps us → In p (f us))
      → Matches (k ∷ ps) ts
      → (ps ≡ []) ⊎ In p (suffixes f ts)
  unfolding suffixes
  hash_complete p f ih (Matches.literal {t = t} {ps} {ts} e m) = skip_one p f t ps ts ih m
  hash_complete p f ih (Matches.star {t = t} {ps} {ts} e m) = skip_one p f t ps ts ih m
  hash_complete p f ih (Matches.hash_last e last) = inl last
  hash_complete p f ih (Matches.hash_stop {t = t} {ts = ts} e m) =
      inr (In-append_left p (f (t ∷ ts)) (suffixes f ts) (ih (t ∷ ts) m))
  hash_complete p f ih (Matches.hash_skip {t = t} {ts = ts} e m) = elim (hash_complete p f ih m) [
    | inl last ↦ inl last
    | inr h ↦ inr (In-append_right p (f (t ∷ ts)) (suffixes f ts) h)
  ]

  module _ (p : P) (token : Option String) (ps : List P) (cs : Children P)
      (f : List String → List P) (cur : String) (rem : List String) where
    abbrev In-search : Type 0
    In-search = In p (node_matches (node token ps cs) (cur ∷ rem))

    via_literal : child_matches cs cur ≡ some f → In p (f rem) → In-search
    unfolding node_matches
    via_literal at h = In-append_left p (call (child_matches cs cur) rem) _ (rw at h)

    via_star : child_matches cs "*" ≡ some f → In p (f rem) → In-search
    unfolding node_matches
    via_star at h =
        In-append_right p (call (child_matches cs cur) rem) _
          (In-append_left p (call (child_matches cs "*") rem) _ (rw at h))

    via_hash :
        (n : Node P)
        → child_matches cs "#" ≡ some f
        → get_child cs "#" ≡ some n
        → In p (suffixes f (cur ∷ rem)) ⊎ In p (patterns n)
        → In-search
    unfolding node_matches
    via_hash n at at' h =
        In-append_right p (call (child_matches cs cur) rem) _
          (In-append_right p (call (child_matches cs "*") rem) _ (rw (at, at') (both h)))
      where
        both :
            In p (suffixes f (cur ∷ rem)) ⊎ In p (patterns n)
            → In p (dedupe (suffixes f (cur ∷ rem)) ++ patterns n)
        both (inl l) =
            In-append_left p (dedupe (suffixes f (cur ∷ rem))) (patterns n)
              ((In-dedupe (suffixes f (cur ∷ rem)) p).1 l)
        both (inr r) = In-append_right p (dedupe (suffixes f (cur ∷ rem))) (patterns n) r

  own_or_below :
      (p : P) (n : Node P) {k : String} {ks ts : List String}
      → In p (patterns_at ks n)
      → ((us : List String) → Matches ks us → In p (node_matches n us))
      → Matches (k ∷ ks) ts
      → In p (suffixes (node_matches n) ts) ⊎ In p (patterns n)
  own_or_below p n stored ih m = elim (hash_complete p (node_matches n) ih m) [
    | inl last ↦ inr (rw (patterns_at-nil n) at (rw last at stored))
    | inr below ↦ inl below
  ]

  take_hash :
      (p : P) (token : Option String) (ps : List P) (cs : Children P) (n : Node P) (t : String)
      (ts : List String) {k : String}
      → k ≡ "#"
      → get_child cs k ≡ some n
      → In p (suffixes (node_matches n) (t ∷ ts)) ⊎ In p (patterns n)
      → In p (node_matches (node token ps cs) (t ∷ ts))
  take_hash p token ps cs n t ts e at h =
      via_hash p token ps cs (node_matches n) t ts n (child_matches-eq cs "#" n (rw e at at))
        (rw e at at) h

  -- One token of the path is taken, given the search below the child that it names.
  step_complete :
      (p : P) (token : Option String) (ps : List P) (cs : Children P) (n : Node P) {k : String}
      {ks ts : List String}
      → get_child cs k ≡ some n
      → In p (patterns_at ks n)
      → ((us : List String) → Matches ks us → In p (node_matches n us))
      → Matches (k ∷ ks) ts
      → In p (node_matches (node token ps cs) ts)
  step_complete p token ps cs n at stored ih (Matches.literal {t = t} {ts = ts} e m) =
      via_literal p token ps cs (node_matches n) t ts (child_matches-eq cs t n (rw e at at))
        (ih ts m)
  step_complete p token ps cs n at stored ih (Matches.star {t = t} {ts = ts} e m) =
      via_star p token ps cs (node_matches n) t ts (child_matches-eq cs "*" n (rw e at at))
        (ih ts m)
  step_complete p token ps cs n at stored ih (Matches.hash_last {t = t} {ts = ts} e last) =
      take_hash p token ps cs n t ts e at (own_or_below p n stored ih (Matches.hash_last e last))
  step_complete p token ps cs n at stored ih (Matches.hash_stop {t = t} {ts = ts} e m) =
      take_hash p token ps cs n t ts e at (own_or_below p n stored ih (Matches.hash_stop e m))
  step_complete p token ps cs n at stored ih (Matches.hash_skip {t = t} {ts = ts} e m) =
      take_hash p token ps cs n t ts e at (own_or_below p n stored ih (Matches.hash_skip e m))

  pub node_matches_complete :
      (p : P) (path : List String) (n : Node P) (ts : List String)
      → In p (patterns_at path n)
      → Matches path ts
      → In p (node_matches n ts)
  unfolding node_matches patterns_at
  node_matches_complete p [] (node token ps cs) ts h Matches.done = h
  node_matches_complete p (k ∷ ks) (node token ps cs) ts h m =
      elim (Option-cases (get_child cs k)) [
        | inl missing ↦ absurd (rw (missing, patterns_at) at h)
        | inr (n, at) ↦
            let stored : In p (patterns_at ks n) = rw (at, patterns_at) at h in
            step_complete p token ps cs n at stored
              (λ us m'. node_matches_complete p ks n us stored m') m
      ]

  -- The search returns a pattern exactly when it is stored on a path that matches the key.
  pub node_matches_iff :
      (p : P) (n : Node P) (ts : List String) → In p (node_matches n ts) ↔ Found p n ts
  node_matches_iff p n ts =
      (node_matches-sound p n ts, λ (path, stored, m). node_matches_complete p path n ts stored m)
