-- ===== src/Event/Rest.antt =====
-- What the tokens behind an event's type match.
use mathlib.Core.Path.{subst}
use scioncc.Prelude.{
  ◌≡◌, ◌≢◌, refl, String, ◌==◌, string_eq, eq_iff, Option, none, some, List, [], ◌∷◌, ◌++◌, inl,
  inr, arith, Bool-cases, if◌then◌else◌,
}
use scioncc.Topic.Matches.{TopicMatch}
use scioncc.Event.Tokens.{Fits, match-one, match-hash}
use scioncc.Event.Topics.{sub_tokens, IsPlainText}

pub star_ne_hash : ◌≢◌ {A = String} "*" "#"
star_ne_hash q = ground (arith, eq_iff {A = String} "*" "#")

pub event_ne_star : ◌≢◌ {A = String} "Event" "*"
event_ne_star q = ground (arith, eq_iff {A = String} "Event" "*")

pub event_ne_hash : ◌≢◌ {A = String} "Event" "#"
event_ne_hash q = ground (arith, eq_iff {A = String} "Event" "#")

pub exact : (k t : String) → k ≢ "*" → Fits k t → k ≡ t
exact k t h (inl e) = e
exact k t h (inr e) = absurd (h e)

TopicMatch-nil : {ts : List String} → TopicMatch [] ts → ts ≡ []
TopicMatch-nil TopicMatch.done = refl

TopicMatch-pair :
    (a b : String) {ts : List String}
    → a ≢ "#"
    → b ≢ "#"
    → TopicMatch (a ∷ b ∷ []) ts
    → (y : String) × (z : String) × (ts ≡ y ∷ z ∷ []) × Fits a y × Fits b z
TopicMatch-pair a b h k m =
    let (y, more, e, f, m') = match-one h m in
    let (z, rest, e', g, m'') = match-one k m' in (y, z, rw (e, e', TopicMatch-nil m'') refl, f, g)

-- What the tokens for the sub type match.
abbrev pub SubFits : Option String → String → List String → Type 0
SubFits none w ws = Unit
SubFits (some t) w ws = if t == "" then Unit else (t ≡ w) × (ws ≡ [])

rest-any :
    (a b : String) {vs : List String}
    → a ≢ "#"
    → b ≢ "#"
    → TopicMatch ("*" ∷ "#" ∷ a ∷ b ∷ []) vs
    → (w : String) × (ws : List String) × (y : String) × (z : String) × (vs
        ≡ (w ∷ ws) ++ y ∷ z ∷ [])
      × Fits a y
      × Fits b z
rest-any a b h k m =
    let (w, more, e, _, m') = match-one star_ne_hash m in
    let (us, vs', e', m'') = match-hash refl m' in
    let (y, z, e'', f, g) = TopicMatch-pair a b h k m'' in (w, us, y, z, rw (e, e', e'') refl, f, g)

pub rest-match :
    (sub : Option String) (a b : String) {vs : List String}
    → IsPlainText sub
    → a ≢ "#"
    → b ≢ "#"
    → TopicMatch (sub_tokens sub ++ a ∷ b ∷ []) vs
    → (w : String) × (ws : List String) × (y : String) × (z : String) × (vs
        ≡ (w ∷ ws) ++ y ∷ z ∷ [])
      × Fits a y
      × Fits b z
      × SubFits sub w ws
rest-match none a b p h k m =
    let (w, ws, y, z, e, f, g) = rest-any a b h k m in (w, ws, y, z, e, f, g, tt)
rest-match (some t) a b {vs} (_, star, hash) h k m = elim (Bool-cases (t == "")) [
  | inl e ↦
      let m' =
        subst (λ c. TopicMatch ((if c then "*" ∷ "#" ∷ [] else t ∷ []) ++ a ∷ b ∷ []) vs) e m in
      let (w, ws, y, z, e', f, g) = rest-any a b h k m' in (w, ws, y, z, e', f, g, rw e tt)
  | inr e ↦
      let m' =
        subst (λ c. TopicMatch ((if c then "*" ∷ "#" ∷ [] else t ∷ []) ++ a ∷ b ∷ []) vs) e m in
      let (w, more, q, f, n) = match-one hash m' in
      let (y, z, q', g, i) = TopicMatch-pair a b h k n in
      (w, [], y, z, rw (q, q') refl, g, i, rw e (exact t w star f, refl))
]
