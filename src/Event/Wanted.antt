-- ===== src/Event/Wanted.antt =====
-- A subscription gets the events that it asks for, over the exchange's trie.
use mathlib.Core.Path.{subst}
use mathlib.Core.List.{append_assoc}
use scioncc.Prelude.{
  list_eq, ◌≡◌, ◌≢◌, ◌↔◌, refl, sym, ap, ◌∙◌, String, true, ◌==◌, string_eq, eq_iff, eq_refl,
  Option, none, some, List, [], ◌∷◌, ◌++◌, In, inl, inr, arith, Bool-cases, if◌then◌else◌, Eq,
}
use scioncc.Topic.{split, get_all_matches}
use scioncc.Topic.Matches.{TopicMatch, EndsHard}
use scioncc.Topic.Bindings.{add, built, in_force, get_all_matches-TopicMatch}
use scioncc.Event.{Event, Subscription, or_text, publisher_topic, subscriber_topic}
use scioncc.Event.Tokens.{fits, skips}
use scioncc.Event.Matched.{Wanted, or_star_ne_hash, Fits-WantsField, wanted-of-match}
use scioncc.Event.Topics.{
  lineage, type_tokens, sub_tokens, StartsWith, WantsType, WantsField, Wants, IsPlain, HasTokens,
  split-publisher_topic, split-subscriber_topic,
}

-- The other way round.
rest-build :
    (sub : Option String) (ps : List String) {x : String} {vs : List String}
    → WantsField sub x
    → TopicMatch ps vs
    → TopicMatch (sub_tokens sub ++ ps) (x ∷ vs)
rest-build none ps h m = fits (inr refl) (TopicMatch.hash_none refl m)
rest-build (some t) ps {x} {vs} h m = elim (Bool-cases (t == "")) [
  | inl e ↦ rw e (fits (inr refl) (TopicMatch.hash_none refl m))
  | inr e ↦ rw e (fits (inl (subst (λ c. if c then Unit else t ≡ x) e h)) m)
]

infix-build :
    (t : String) (l : List String) {ps vs : List String}
    → In t l
    → TopicMatch ps vs
    → TopicMatch ("#" ∷ t ∷ "#" ∷ ps) (l ++ vs)
infix-build t [] i m = absurd i
infix-build t (y ∷ l) (inl e) m = TopicMatch.hash_none refl (fits (inl e) (skips l m))
infix-build t (y ∷ l) (inr i) m = TopicMatch.hash_more refl (infix-build t l i m)

starts-build :
    (l : List String) {ps vs : List String}
    → StartsWith "Event" l
    → TopicMatch ps vs
    → TopicMatch ("Event" ∷ "#" ∷ ps) (l ++ vs)
starts-build [] h m = absurd h
starts-build (y ∷ l) h m = fits (inl h) (skips l m)

type-build :
    (ty : Option String) (ps l : List String) {vs : List String}
    → WantsType ty l
    → TopicMatch ps vs
    → TopicMatch (type_tokens ty ++ ps) (l ++ vs)
type-build none ps l h m = skips l m
type-build (some t) ps l h m = elim (Bool-cases (t == "Event")) [
  | inl e ↦ rw e (starts-build l (subst (λ c. Wanted c t l) e h) m)
  | inr other ↦
      let h1 = subst (λ c. Wanted c t l) other h in
      elim (Bool-cases (t == "")) [
        | inl e ↦ rw (other, e) (skips l m)
        | inr named ↦
            rw (other, named) (infix-build t l (subst (λ c. if c then Unit else In t l) named h1) m)
      ]
]

match-of-Wanted :
    (s : Subscription) (l : List String) (x y z : String)
    → WantsType s.event_type l
    → WantsField s.sub_type x
    → WantsField s.origin_type y
    → WantsField s.origin z
    → TopicMatch
        (type_tokens s.event_type
          ++ (sub_tokens s.sub_type ++ or_text s.origin_type "*" ∷ or_text s.origin "*" ∷ []))
        (l ++ x ∷ y ∷ z ∷ [])
match-of-Wanted s l x y z t f g h = type-build s.event_type _ l t (
    rest-build s.sub_type _ f (
      fits (Fits-WantsField s.origin_type y g)
        (fits (Fits-WantsField s.origin z h) TopicMatch.done)))

-- The binding of a subscription matches the topic of an event, where neither has a dot in a field,
-- exactly when the subscription asks for the event.
pub subscriber_topic-publisher_topic :
    (s : Subscription) (e : Event)
    → IsPlain s
    → HasTokens e
    → TopicMatch (split (subscriber_topic s)) (split (publisher_topic e)) ↔ Wants s e
subscriber_topic-publisher_topic s e p h =
    let x = or_text e.sub_type "_" in
    let y = or_text e.origin_type "_" in
    let b = split-subscriber_topic s p in
    let k = split-publisher_topic e h in
    (
      λ m. wanted-of-match s (lineage e) x y e.origin p (
          subst (λ q. TopicMatch q (lineage e ++ x ∷ y ∷ e.origin ∷ [])) b
            (subst (TopicMatch (split (subscriber_topic s))) k m)),
      λ w. rw (b, k) (match-of-Wanted s (lineage e) x y e.origin w.0 w.1 w.2 w.3),
    )

EndsHard-snoc : (ps : List String) (b : String) → b ≢ "#" → EndsHard (ps ++ b ∷ [])
EndsHard-snoc [] b h = h
EndsHard-snoc (k ∷ []) b h = h
EndsHard-snoc (k ∷ j ∷ ps) b h = EndsHard-snoc (j ∷ ps) b h

binding-EndsHard : (s : Subscription) → IsPlain s → EndsHard (split (subscriber_topic s))
binding-EndsHard s p =
    let a = or_text s.origin_type "*" in
    let front = type_tokens s.event_type ++ (sub_tokens s.sub_type ++ a ∷ []) in
    rw (split-subscriber_topic s p) (
      subst EndsHard
        (append_assoc (type_tokens s.event_type) (sub_tokens s.sub_type ++ a ∷ [])
            (or_text s.origin "*" ∷ [])
          ∙ ap (λ r. type_tokens s.event_type ++ r)
              (append_assoc (sub_tokens s.sub_type) (a ∷ []) (or_text s.origin "*" ∷ [])))
        (EndsHard-snoc front (or_text s.origin "*") (or_star_ne_hash s.origin p.origin)))

module _ {P : Type 0} ⦃eq : Eq P⦄ where
  only_binding :
      (topic_tree : String) (p : P) (path : List String)
      → in_force (add topic_tree p ∷ []) path p ≡ true
      → split topic_tree ≡ path
  unfolding in_force
  only_binding topic_tree p path h = (eq_iff (split topic_tree) path).0 (ground (arith, eq_refl p))

  own_binding :
      (topic_tree : String) (p : P) → in_force (add topic_tree p ∷ []) (split topic_tree) p ≡ true
  unfolding in_force
  own_binding topic_tree p = rw (eq_refl (split topic_tree), eq_refl p) refl

  -- A queue that is bound to the exchange's trie by a subscription, and by nothing else, is found for
  -- the topic of an event, where neither has a dot in a field, exactly when the subscription asks for
  -- that event: by its type or a base type, its sub type, its origin's type and its origin.
  pub get_all_matches-Wants :
      (s : Subscription) (e : Event) (queue : P)
      → IsPlain s
      → HasTokens e
      → In queue (get_all_matches (built (add (subscriber_topic s) queue ∷ [])) (publisher_topic e))
        ↔ Wants s e
  get_all_matches-Wants s e queue p h =
      let (sound, complete) =
        get_all_matches-TopicMatch (add (subscriber_topic s) queue ∷ []) (publisher_topic e)
          queue in
      let (asked, sent) = subscriber_topic-publisher_topic s e p h in
      (
        λ i.
            let (path, bound, m) = sound i in
            asked (
              subst (λ q. TopicMatch q (split (publisher_topic e)))
                (sym (only_binding (subscriber_topic s) queue path bound)) m),
        λ w.
            complete (split (subscriber_topic s)) (binding-EndsHard s p)
              (own_binding (subscriber_topic s) queue) (sent w),
      )
