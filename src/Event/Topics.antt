-- ===== src/Event/Topics.antt =====
-- Which events a subscription's binding matches.
use mathlib.Core.List.{append_assoc, reverse}
use scioncc.Prelude.{
  ◌≡◌, ◌≢◌, refl, sym, ◌∙◌, String, ◌==◌, string_eq, Option, none, some, List, [], ◌∷◌, ◌++◌, In,
  inl, inr, Bool-cases, if◌then◌else◌,
}
use scioncc.Topic.{split}
use scioncc.Event.{
  Event, Subscription, dotted, join, or_text, publisher_topic, type_binding, subscriber_topic,
}
use scioncc.Event.Tokens.{split-dotted, IsToken, AreTokens, split-join}

-- The first tokens of an event's topic: its base types, the most general first, and its type. An event
-- without base types has an empty token in their place.
abbrev bases_of : List String → List String
bases_of [] = "" ∷ []
bases_of (x ∷ xs) = x ∷ xs

abbrev pub lineage : Event → List String
lineage e = bases_of (reverse e.base_types) ++ e.event_type ∷ []

-- The tokens of a binding: for the type, and for the sub type.
abbrev pub type_tokens : Option String → List String
type_tokens none = "#" ∷ []
type_tokens (some t) =
    if t == "Event" then "Event" ∷ "#" ∷ [] else if t == "" then "#" ∷ [] else "#" ∷ t ∷ "#" ∷ []

abbrev pub sub_tokens : Option String → List String
sub_tokens none = "*" ∷ "#" ∷ []
sub_tokens (some t) = if t == "" then "*" ∷ "#" ∷ [] else t ∷ []

-- A list that starts with a value.
abbrev pub StartsWith : String → List String → Type 0
StartsWith k [] = ⊥
StartsWith k (x ∷ xs) = k ≡ x

-- What a subscription asks for: a type by itself or by a base type, but for "Event" that the lineage
-- starts with it; and the other fields where they are given.
abbrev pub WantsType : Option String → List String → Type 0
WantsType none l = Unit
WantsType (some t) l =
    if t == "Event" then StartsWith "Event" l else if t == "" then Unit else In t l

abbrev pub WantsField : Option String → String → Type 0
WantsField none x = Unit
WantsField (some k) x = if k == "" then Unit else k ≡ x

abbrev pub Wants : Subscription → Event → Type 0
Wants s e =
    WantsType s.event_type (lineage e)
    × WantsField s.sub_type (or_text e.sub_type "_")
    × WantsField s.origin_type (or_text e.origin_type "_")
    × WantsField s.origin e.origin

-- A field of a subscription is no wildcard and has no dot.
abbrev pub IsPlainText : Option String → Type 0
IsPlainText none = Unit
IsPlainText (some t) = IsToken t × (t ≢ "*") × (t ≢ "#")

pub record IsPlain (s : Subscription) : Type 0 where
  pub event_type : IsPlainText s.event_type
  pub sub_type : IsPlainText s.sub_type
  pub origin_type : IsPlainText s.origin_type
  pub origin : IsPlainText s.origin

-- The fields of an event have no dots.
pub record HasTokens (e : Event) : Type 0 where
  pub base_types : AreTokens (bases_of (reverse e.base_types))
  pub event_type : IsToken e.event_type
  pub sub_type : IsToken (or_text e.sub_type "_")
  pub origin_type : IsToken (or_text e.origin_type "_")
  pub origin : IsToken e.origin

ap2 : {a b c d : List String} → a ≡ b → c ≡ d → a ++ c ≡ b ++ d
ap2 p q = rw (p, q) refl

split-bases : (l : List String) → AreTokens (bases_of l) → split (join l) ≡ bases_of l
unfolding split join
split-bases [] h = refl
split-bases (x ∷ xs) h = split-join x xs h

split-four :
    (a b c d : String) (as' bs cs ds : List String)
    → split a ≡ as'
    → split b ≡ bs
    → split c ≡ cs
    → split d ≡ ds
    → split (dotted a (dotted b (dotted c d))) ≡ as' ++ (bs ++ (cs ++ ds))
split-four a b c d as' bs cs ds p q r t =
    rw
      (
        split-dotted a (dotted b (dotted c d)),
        split-dotted b (dotted c d),
        split-dotted c d,
        p,
        q,
        r,
        t,
      )
      refl

pub split-publisher_topic :
    (e : Event)
    → HasTokens e
    → split (publisher_topic e)
      ≡ lineage e ++ or_text e.sub_type "_" ∷ or_text e.origin_type "_" ∷ e.origin ∷ []
unfolding publisher_topic
split-publisher_topic e h =
    let c = or_text e.sub_type "_" in
    let d = or_text e.origin_type "_" in
    let tail =
      split-four e.event_type c d e.origin (e.event_type ∷ []) (c ∷ []) (d ∷ []) (e.origin ∷ [])
        h.event_type h.sub_type h.origin_type h.origin in
    split-dotted (join (reverse e.base_types)) (dotted e.event_type (dotted c (dotted d e.origin)))
    ∙ (ap2 (split-bases (reverse e.base_types) h.base_types) tail
        ∙ sym (
            append_assoc (bases_of (reverse e.base_types)) (e.event_type ∷ [])
              (c ∷ d ∷ e.origin ∷ [])))

hashed : (t : String) → IsToken t → split (dotted "#" (dotted t "#")) ≡ "#" ∷ t ∷ "#" ∷ []
unfolding split
hashed t h = rw (split-dotted "#" (dotted t "#"), split-dotted t "#", h) refl

split-type_binding : (t : Option String) → IsPlainText t → split (type_binding t) ≡ type_tokens t
unfolding type_binding split
split-type_binding none h = refl
split-type_binding (some t) (h, _, _) = elim (Bool-cases (t == "Event")) [
  | inl e ↦ rw e refl
  | inr other ↦ elim (Bool-cases (t == "")) [
    | inl e ↦ rw (other, e) refl
    | inr named ↦ rw (other, named) (hashed t h)
  ]
]

split-sub : (t : Option String) → IsPlainText t → split (or_text t "*.#") ≡ sub_tokens t
unfolding split
split-sub none h = refl
split-sub (some t) (h, _, _) = elim (Bool-cases (t == "")) [
  | inl e ↦ rw e refl
  | inr named ↦ rw named h
]

split-star : (t : Option String) → IsPlainText t → split (or_text t "*") ≡ or_text t "*" ∷ []
unfolding split
split-star none h = refl
split-star (some t) (h, _, _) = elim (Bool-cases (t == "")) [
  | inl e ↦ rw e refl
  | inr named ↦ rw named h
]

pub split-subscriber_topic :
    (s : Subscription)
    → IsPlain s
    → split (subscriber_topic s)
      ≡ type_tokens s.event_type
        ++ (sub_tokens s.sub_type ++ or_text s.origin_type "*" ∷ or_text s.origin "*" ∷ [])
unfolding subscriber_topic
split-subscriber_topic s p =
    split-four (type_binding s.event_type) (or_text s.sub_type "*.#") (or_text s.origin_type "*")
      (or_text s.origin "*") (type_tokens s.event_type) (sub_tokens s.sub_type)
      (or_text s.origin_type "*" ∷ []) (or_text s.origin "*" ∷ [])
      (split-type_binding s.event_type p.event_type) (split-sub s.sub_type p.sub_type)
      (split-star s.origin_type p.origin_type) (split-star s.origin p.origin)
