-- ===== src/Event/Matched.antt =====
-- What a subscription's binding matches is what the subscription asks for.
use mathlib.Core.Path.{subst}
use mathlib.Core.List.{append_assoc}
use scioncc.Prelude.{
  ◌≡◌, ◌≢◌, refl, sym, ap, ◌∙◌, String, Bool, ◌==◌, string_eq, Option, none, some, List, [], ◌∷◌,
  ◌++◌, In, In-append_left, inl, inr, arith, Bool-cases, if◌then◌else◌, length, length-append,
}
use scioncc.Topic.Matches.{TopicMatch}
use scioncc.Event.{Subscription, or_text}
use scioncc.Event.Tokens.{Fits, match-one, match-hash, snoc-injective}
use scioncc.Event.Topics.{
  type_tokens, sub_tokens, StartsWith, WantsType, WantsField, IsPlainText, IsPlain,
}
use scioncc.Event.Rest.{star_ne_hash, event_ne_star, event_ne_hash, exact, SubFits, rest-match}

abbrev pub chosen : Bool → String → List String
chosen c t = if c then "Event" ∷ "#" ∷ [] else if t == "" then "#" ∷ [] else "#" ∷ t ∷ "#" ∷ []

abbrev pub Wanted : Bool → String → List String → Type 0
Wanted c t l = if c then StartsWith "Event" l else if t == "" then Unit else In t l

starts : (us rest : List String) → StartsWith "Event" us → StartsWith "Event" (us ++ rest)
starts [] rest h = absurd h
starts (u ∷ us) rest h = h

In-middle : (t : String) (us vs : List String) → In t (us ++ t ∷ vs)
In-middle t [] vs = inl refl
In-middle t (u ∷ us) vs = inr (In-middle t us vs)

glued :
    (t x : String) {ts vs more : List String} (us us' vs' : List String)
    → t ≡ x
    → ts ≡ us ++ vs
    → vs ≡ x ∷ more
    → more ≡ us' ++ vs'
    → ts ≡ (us ++ t ∷ us') ++ vs'
glued t x {more} us us' vs' same e f g =
    e
    ∙ (ap (λ l. us ++ l) (f ∙ (ap (λ y. y ∷ more) (sym same) ∙ ap (λ l. t ∷ l) g))
        ∙ sym (append_assoc us (t ∷ us') vs'))

-- A token between two '#'.
infix-match :
    (t : String) (ps : List String) {ts : List String}
    → t ≢ "*"
    → t ≢ "#"
    → TopicMatch ("#" ∷ t ∷ "#" ∷ ps) ts
    → (us : List String) × (vs : List String) × (ts ≡ us ++ vs) × TopicMatch ps vs × In t us
infix-match t ps star hash m =
    let (us, vs, q, m1) = match-hash refl m in
    let (x, more, q', f, m2) = match-one hash m1 in
    let (us', vs', q'', m3) = match-hash refl m2 in
    (us ++ t ∷ us', vs', glued t x us us' vs' (exact t x star f) q q' q'', m3, In-middle t us us')

-- What the tokens for the type match.
type-match :
    (ty : Option String) (ps : List String) {ts : List String}
    → IsPlainText ty
    → TopicMatch (type_tokens ty ++ ps) ts
    → (us : List String) × (vs : List String) × (ts ≡ us ++ vs) × TopicMatch ps vs × WantsType ty us
type-match none ps p m = let (us, vs, e, m') = match-hash refl m in (us, vs, e, m', tt)
type-match (some t) ps {ts} (_, star, hash) m = elim (Bool-cases (t == "Event")) [
  | inl e ↦
      let m1 = subst (λ c. TopicMatch (chosen c t ++ ps) ts) e m in
      let (x, more, q, f, m2) = match-one event_ne_hash m1 in
      let (us, vs, q', m3) = match-hash refl m2 in
      (x ∷ us, vs, rw (q, q') refl, m3, rw e (exact "Event" x event_ne_star f))
  | inr other ↦
      let m1 = subst (λ c. TopicMatch (chosen c t ++ ps) ts) other m in
      elim (Bool-cases (t == "")) [
        | inl e ↦
            let m2 =
              subst (λ c. TopicMatch ((if c then "#" ∷ [] else "#" ∷ t ∷ "#" ∷ []) ++ ps) ts) e
                m1 in
            let (us, vs, q, m3) = match-hash refl m2 in (us, vs, q, m3, rw (other, e) tt)
        | inr named ↦
            let (us, vs, q, m2, i) = infix-match t ps star hash (
              subst (λ c. TopicMatch ((if c then "#" ∷ [] else "#" ∷ t ∷ "#" ∷ []) ++ ps) ts) named
                m1) in
            (us, vs, q, m2, rw (other, named) i)
      ]
]

-- A list that ends in one element, cut before another.
prefix :
    (us ws l : List String) (w x : String)
    → us ++ w ∷ ws ≡ l ++ x ∷ []
    → (rest : List String) × (l ≡ us ++ rest)
prefix [] ws l w x e = (l, refl)
prefix (u ∷ us) ws [] w x e = absurd (omega (arith, ap length e, length-append us (w ∷ ws)))
prefix (u ∷ us) ws (y ∷ l) w x e =
    let (rest, q) =
      prefix us ws l w x (let t : us ++ w ∷ ws ≡ l ++ x ∷ [] = ground (arith, e) in t) in
    let head : u ≡ y = ground (arith, e) in (rest, rw (q, head) refl)

WantsType-append :
    (ty : Option String) (us rest : List String) → WantsType ty us → WantsType ty (us ++ rest)
WantsType-append none us rest h = tt
WantsType-append (some t) us rest h = elim (Bool-cases (t == "Event")) [
  | inl e ↦ rw e (starts us rest (subst (λ c. Wanted c t us) e h))
  | inr other ↦
      let h1 = subst (λ c. Wanted c t us) other h in
      elim (Bool-cases (t == "")) [
        | inl e ↦ rw (other, e) tt
        | inr named ↦
            rw (other, named)
              (In-append_left t us rest (subst (λ c. if c then Unit else In t us) named h1))
      ]
]

WantsField-Fits :
    (o : Option String) (x : String) → IsPlainText o → Fits (or_text o "*") x → WantsField o x
WantsField-Fits none x p f = tt
WantsField-Fits (some k) x (_, star, _) f = elim (Bool-cases (k == "")) [
  | inl e ↦ rw e tt
  | inr e ↦ rw e (exact k x star (subst (λ c. Fits (if c then "*" else k) x) e f))
]

pub Fits-WantsField : (o : Option String) (x : String) → WantsField o x → Fits (or_text o "*") x
Fits-WantsField none x h = inr refl
Fits-WantsField (some k) x h = elim (Bool-cases (k == "")) [
  | inl e ↦ rw e (inr refl)
  | inr e ↦ rw e (inl (subst (λ c. if c then Unit else k ≡ x) e h))
]

pub or_star_ne_hash : (o : Option String) → IsPlainText o → or_text o "*" ≢ "#"
or_star_ne_hash none p = star_ne_hash
or_star_ne_hash (some k) (_, _, hash) = elim (Bool-cases (k == "")) [
  | inl e ↦ rw e star_ne_hash
  | inr e ↦ rw e hash
]

sub-Wanted :
    (o : Option String) (w x : String) (us ws l : List String)
    → us ++ w ∷ ws ≡ l ++ x ∷ []
    → SubFits o w ws
    → WantsField o x
sub-Wanted none w x us ws l e f = tt
sub-Wanted (some t) w x us ws l e f = elim (Bool-cases (t == "")) [
  | inl q ↦ rw q tt
  | inr q ↦
      let (same, nil) = subst (λ c. if c then Unit else (t ≡ w) × (ws ≡ [])) q f in
      rw q (same ∙ (snoc-injective us l w x (ap (λ r. us ++ w ∷ r) (sym nil) ∙ e)).1)
]

-- Two lists that end in two elements.
cut :
    (l us ws : List String) (x y z y' z' : String)
    → l ++ x ∷ y ∷ z ∷ [] ≡ us ++ (ws ++ y' ∷ z' ∷ [])
    → (l ++ x ∷ [] ≡ us ++ ws) × (y ≡ y') × (z ≡ z')
cut l us ws x y z y' z' e =
    let (e1, last) = snoc-injective (l ++ x ∷ y ∷ []) (us ++ (ws ++ y' ∷ [])) z z' (
      append_assoc l (x ∷ y ∷ []) (z ∷ [])
      ∙ (e
          ∙ sym (
              append_assoc us (ws ++ y' ∷ []) (z' ∷ [])
              ∙ ap (λ r. us ++ r) (append_assoc ws (y' ∷ []) (z' ∷ []))))) in
    let (e2, middle) =
      snoc-injective (l ++ x ∷ []) (us ++ ws) y y'
        (append_assoc l (x ∷ []) (y ∷ []) ∙ (e1 ∙ sym (append_assoc us ws (y' ∷ [])))) in
    (e2, middle, last)

-- The match gives what the subscription asks for.
pub wanted-of-match :
    (s : Subscription) (l : List String) (x y z : String)
    → IsPlain s
    → TopicMatch
        (type_tokens s.event_type
          ++ (sub_tokens s.sub_type ++ or_text s.origin_type "*" ∷ or_text s.origin "*" ∷ []))
        (l ++ x ∷ y ∷ z ∷ [])
    → WantsType s.event_type l
      × WantsField s.sub_type x
      × WantsField s.origin_type y
      × WantsField s.origin z
wanted-of-match s l x y z p m =
    let (us, vs, e, m1, t) = type-match s.event_type _ p.event_type m in
    let (w, ws, y', z', e', f, g, sub) =
      rest-match s.sub_type (or_text s.origin_type "*") (or_text s.origin "*") p.sub_type
        (or_star_ne_hash s.origin_type p.origin_type) (or_star_ne_hash s.origin p.origin) m1 in
    let (front, same_y, same_z) = cut l us (w ∷ ws) x y z y' z' (e ∙ ap (λ r. us ++ r) e') in
    let (rest, q) = prefix us ws l w x (sym front) in
    (
      subst (WantsType s.event_type) (sym q) (WantsType-append s.event_type us rest t),
      sub-Wanted s.sub_type w x us ws l (sym front) sub,
      WantsField-Fits s.origin_type y p.origin_type
          (subst (Fits (or_text s.origin_type "*")) (sym same_y) f),
      WantsField-Fits s.origin z p.origin (subst (Fits (or_text s.origin "*")) (sym same_z) g),
    )
