-- ===== src/Router/Deliver.antt =====
-- src/pyon/net/transport.py, class LocalRouter: `_route`, against the bindings in the tries.
use scioncc.Prelude.{
  ℕ, String, ◌≡◌, refl, ap, ◌∙◌, true, false, some, List, [], ◌∷◌, ◌++◌, eq_iff, eq_refl,
  if◌then◌else◌, arith, string_eq, nat_eq, Bool-cases, Option-cases, inl, inr, ok, contains,
  contains_iff, IsNodup, IsNodup-dedupe, In-dedupe,
}
use scioncc.Prelude.Dict
use scioncc.Topic.{TopicTrie, split, get_all_matches, node_matches}
use scioncc.Topic.Matches.{Matches}
use scioncc.Topic.Paths.{patterns_at}
use scioncc.Topic.Complete.{node_matches_iff}
use scioncc.Router.{Msg, message, Router}
use scioncc.Router.Consuming.{put_object, deliver_all, route}
use scioncc.Router.Stored.{stored}
use scioncc.Router.Bound.{IsValid}

module _ {Body Props : Type 0} (m : Msg Body Props) where
  -- Each listed queue got the message once, every other one nothing, and all else is unchanged.
  record Delivered (r after : Router Body Props) (qs : List String) : Type 0 where
    exchanges : after.exchanges ≡ r.exchanges
    queues : after.queues ≡ r.queues
    bindings : after.bindings_by_queue ≡ r.bindings_by_queue
    next : after.next_object ≡ r.next_object
    contents :
        (q : String) (o : ℕ)
        → Dict.get r.queues q ≡ some o
        → after.objects o ≡ (if contains qs q then r.objects o ++ message m ∷ [] else r.objects o)

  module _ (r : Router Body Props)
      (own : (q p : String) (o : ℕ)
        → Dict.get r.queues q ≡ some o
        → Dict.get r.queues p ≡ some o
        → q ≡ p)
      (q : String) (o : ℕ) (at : Dict.get r.queues q ≡ some o) (qs : List String)
      (fresh : contains qs q ≡ false) where
    Delivered-cons :
        (after : Router Body Props)
        → Delivered (put_object r o (message m)) after qs
        → Delivered r after (q ∷ qs)
    unfolding contains
    Delivered-cons after d = record {
      exchanges = d.exchanges;
      queues = d.queues;
      bindings = d.bindings;
      next = d.next;
      contents = λ p o' at'.
          ground
            (arith, d.contents p o' at', own q p o at, eq_iff q p, eq_iff o' o, at, at', fresh);
    }

  deliver_all-Delivered :
      (qs : List String) (r : Router Body Props)
      → ((q p : String) (o : ℕ)
          → Dict.get r.queues q ≡ some o
          → Dict.get r.queues p ≡ some o
          → q ≡ p)
      → IsNodup qs
      → ((q : String) → contains qs q ≡ true → Dict.has_key r.queues q ≡ true)
      → ((deliver_all r m qs).0 ≡ ok tt) × Delivered r (deliver_all r m qs).1 qs
  unfolding deliver_all contains
  deliver_all-Delivered [] r own d declared = (
    refl,
    record {
      exchanges = refl;
      queues = refl;
      bindings = refl;
      next = refl;
      contents = λ q o at. refl;
    },
  )
  deliver_all-Delivered (q ∷ qs) r own d declared = elim (Option-cases (Dict.get r.queues q)) [
    | inl missing ↦ absurd (ground (arith, declared q, eq_refl q))
    | inr (o, at) ↦
        let (fine, rest) =
          deliver_all-Delivered qs (put_object r o (message m)) own d.1
            (λ p h. declared p (ground arith)) in
        (
          rw (at, deliver_all) fine,
          rw (at, deliver_all) (Delivered-cons r own q o at qs d.0 _ rest),
        )
  ]

matches-distinct : (trie : TopicTrie String) (key : String) → IsNodup (get_all_matches trie key)
unfolding get_all_matches
matches-distinct trie key = IsNodup-dedupe (node_matches trie (split key))

module _ {Body Props : Type 0} where
  -- Some path of tokens on which the queue is bound to the exchange matches the routing key.
  abbrev pub HasMatch : Router Body Props → String → String → String → Type 0
  HasMatch r exchange routing_key q =
      (path : List String) × (stored r.exchanges exchange path q ≡ true)
      × Matches path (split routing_key)

  module _ (r : Router Body Props) (exchange routing_key : String) (trie : TopicTrie String)
      (at : Dict.get r.exchanges exchange ≡ some trie) (q : String) where
    contains→HasMatch :
        contains (get_all_matches trie routing_key) q ≡ true → HasMatch r exchange routing_key q
    unfolding get_all_matches
    contains→HasMatch h =
        let found = (contains_iff (get_all_matches trie routing_key) q).0 h in
        let (path, stored_there, matches) =
          (node_matches_iff q trie (split routing_key)).0
            ((In-dedupe (node_matches trie (split routing_key)) q).0 found) in
        (path, rw at ((contains_iff (patterns_at path trie) q).1 stored_there), matches)

    HasMatch→contains :
        HasMatch r exchange routing_key q → contains (get_all_matches trie routing_key) q ≡ true
    unfolding get_all_matches
    HasMatch→contains (path, stored_there, matches) =
        (contains_iff (get_all_matches trie routing_key) q).1 (
          (In-dedupe (node_matches trie (split routing_key)) q).1 (
            (node_matches_iff q trie (split routing_key)).1
              (path, (contains_iff (patterns_at path trie) q).0 (rw at at stored_there), matches)))

  route-on :
      (r : Router Body Props) (m : Msg Body Props) (trie : TopicTrie String)
      → Dict.get r.exchanges m.exchange ≡ some trie
      → route r m ≡ deliver_all r m (get_all_matches trie m.routing_key)
  unfolding route
  route-on r m trie at = rw (at, route)

  -- In a valid state a message on a declared exchange is routed without an error. A declared queue
  -- gets it, once and behind what it holds, if some path of tokens bound to it on that exchange
  -- matches the routing key, and keeps what it holds if none does. Exchanges, queues and the
  -- recorded bindings stay as they are.
  pub route_delivers :
      (r : Router Body Props) (m : Msg Body Props) (trie : TopicTrie String)
      → IsValid r
      → Dict.get r.exchanges m.exchange ≡ some trie
      → ((route r m).0 ≡ ok tt)
        × ((q : String) (o : ℕ)
            → Dict.get r.queues q ≡ some o
            → (HasMatch r m.exchange m.routing_key q
                → (route r m).1.objects o ≡ r.objects o ++ message m ∷ [])
              × (¬ HasMatch r m.exchange m.routing_key q → (route r m).1.objects o ≡ r.objects o))
        × ((route r m).1.exchanges ≡ r.exchanges)
        × ((route r m).1.queues ≡ r.queues)
        × ((route r m).1.bindings_by_queue ≡ r.bindings_by_queue)
  route_delivers r m trie v at =
      let qs = get_all_matches trie m.routing_key in
      let (fine, d) =
        deliver_all-Delivered m qs r v.own_object (matches-distinct trie m.routing_key) (λ q h.
          let (path, s, _) = contains→HasMatch r m.exchange m.routing_key trie at q h in
          (v.bound m.exchange path q s).0) in
      rw (route-on r m trie at) (
        fine,
        λ q o at'. (
          (λ match.
              d.contents q o at'
              ∙ ap (λ b. if b then r.objects o ++ message m ∷ [] else r.objects o)
                  (HasMatch→contains r m.exchange m.routing_key trie at q match)),
          λ unmatched. d.contents q o at' ∙ elim (Bool-cases (contains qs q)) [
            | inl found ↦
                absurd (unmatched (contains→HasMatch r m.exchange m.routing_key trie at q found))
            | inr missed ↦ rw missed
          ],
        ),
        d.exchanges,
        d.queues,
        d.bindings,
      )
