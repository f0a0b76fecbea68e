-- ===== src/Event/Tokens.antt =====
-- The tokens of dotted texts, and how a binding with '#' matches them.
use scioncc.Prelude.{
  ◌≡◌, ◌≢◌, ◌⊎◌, refl, ap, String, List, [], ◌∷◌, ◌++◌, inl, inr, arith, Bool-cases, length,
  length-append, ◌==◌, nat_eq,
}
use Prim.Native.Char.{code}
use scioncc.Prelude.Text.{concat}
use scioncc.Topic.{split}
use scioncc.Topic.Matches.{TopicMatch}
use scioncc.Event.{dotted, join}

split-cons : (s : String) → (t : String) × (ts : List String) × (split s ≡ t ∷ ts)
unfolding split
split-cons String.[] = ("", [], refl)
split-cons (String.◌∷◌ c s) =
    let (t, ts, e) = split-cons s in
    rw e (elim (Bool-cases (code c == b'.')) [
      | inl dot ↦ rw dot ("", t ∷ ts, refl)
      | inr other ↦ rw other (String.◌∷◌ c t, ts, refl)
    ])

pub split-dotted : (a b : String) → split (dotted a b) ≡ split a ++ split b
unfolding split dotted concat
split-dotted String.[] b = let (t, ts, e) = split-cons b in rw e refl
split-dotted (String.◌∷◌ c s) b =
    let (t, ts, e) = split-cons s in
    rw (split-dotted s b, e)
      (elim (Bool-cases (code c == b'.')) [ inl dot ↦ rw dot refl | inr other ↦ rw other refl ])

-- A text without dots.
abbrev pub IsToken : String → Type 0
IsToken s = split s ≡ s ∷ []

abbrev pub AreTokens : List String → Type 0
AreTokens [] = Unit {0}
AreTokens (x ∷ xs) = IsToken x × AreTokens xs

pub split-join :
    (x : String) (xs : List String) → AreTokens (x ∷ xs) → split (join (x ∷ xs)) ≡ x ∷ xs
unfolding join
split-join x [] (t, _) = t
split-join x (y ∷ ys) (t, ts) = rw (split-dotted x (join (y ∷ ys)), t, split-join y ys ts) refl

-- A token of a binding other than '#' against one of a key.
abbrev pub Fits : String → String → Type 0
Fits k t = (k ≡ t) ⊎ (k ≡ "*")

pub match-one :
    {k : String} {ps ts : List String}
    → k ≢ "#"
    → TopicMatch (k ∷ ps) ts
    → (t : String) × (more : List String) × (ts ≡ t ∷ more) × Fits k t × TopicMatch ps more
match-one h (TopicMatch.literal {t = t} {ts = ts} e m) = (t, ts, refl, inl e, m)
match-one h (TopicMatch.star {t = t} {ts = ts} e m) = (t, ts, refl, inr e, m)
match-one h (TopicMatch.hash_none e m) = absurd (h e)
match-one h (TopicMatch.hash_more e m) = absurd (h e)

pub fits :
    {k t : String} {ps ts : List String}
    → Fits k t
    → TopicMatch ps ts
    → TopicMatch (k ∷ ps) (t ∷ ts)
fits (inl e) m = TopicMatch.literal e m
fits (inr e) m = TopicMatch.star e m

-- '#' skips any tokens.
pub match-hash :
    {k : String} {ps ts : List String}
    → k ≡ "#"
    → TopicMatch (k ∷ ps) ts
    → (us : List String) × (vs : List String) × (ts ≡ us ++ vs) × TopicMatch ps vs
match-hash h (TopicMatch.literal {t = t} {ts = ts} e m) = (t ∷ [], ts, refl, m)
match-hash h (TopicMatch.star {t = t} {ts = ts} e m) = (t ∷ [], ts, refl, m)
match-hash h (TopicMatch.hash_none {ts = ts} e m) = ([], ts, refl, m)
match-hash h (TopicMatch.hash_more {t = t} e m) =
    let (us, vs, eq, m') = match-hash h m in (t ∷ us, vs, ap (λ l. t ∷ l) eq, m')

pub skips :
    {ps : List String} (us : List String) {vs : List String}
    → TopicMatch ps vs
    → TopicMatch ("#" ∷ ps) (us ++ vs)
skips [] m = TopicMatch.hash_none refl m
skips (u ∷ us) m = TopicMatch.hash_more refl (skips us m)

-- Equal lists have equal last elements.
pub snoc-injective :
    (xs ys : List String) (x y : String) → xs ++ x ∷ [] ≡ ys ++ y ∷ [] → (xs ≡ ys) × (x ≡ y)
snoc-injective [] [] x y e = (refl, ground (arith, e))
snoc-injective [] (b ∷ ys) x y e = absurd (omega (arith, ap length e, length-append ys (y ∷ [])))
snoc-injective (a ∷ xs) [] x y e = absurd (omega (arith, ap length e, length-append xs (x ∷ [])))
snoc-injective (a ∷ xs) (b ∷ ys) x y e =
    let (tails, last) =
      snoc-injective xs ys x y (let t : xs ++ x ∷ [] ≡ ys ++ y ∷ [] = ground (arith, e) in t) in
    let head : a ≡ b = ground (arith, e) in (rw (head, tails) refl, last)
