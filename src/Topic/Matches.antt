-- ===== src/Topic/Matches.antt =====
-- When a binding matches a routing key, token by token, apart from any trie.
use scioncc.Prelude.{String, ◌≡◌, refl, ◌≢◌, List, [], ◌∷◌, ◌++◌}

-- The search of the trie. A '#' stands for any number of tokens, but what follows it must match at
-- least one token of the key, or else be empty; and it is never reached at the end of the key.
pub data Matches : List String → List String → Type 0 where
  done : Matches [] []
  literal : {k t : String} {ps ts : List String} → k ≡ t → Matches ps ts → Matches (k ∷ ps) (t ∷ ts)
  star : {k t : String} {ps ts : List String} → k ≡ "*" → Matches ps ts → Matches (k ∷ ps) (t ∷ ts)
  hash_last : {k t : String} {ps ts : List String} → k ≡ "#" → ps ≡ [] → Matches (k ∷ ps) (t ∷ ts)
  hash_stop :
      {k t : String} {ps ts : List String}
      → k ≡ "#"
      → Matches ps (t ∷ ts)
      → Matches (k ∷ ps) (t ∷ ts)
  hash_skip :
      {k t : String} {ps ts : List String}
      → k ≡ "#"
      → Matches (k ∷ ps) ts
      → Matches (k ∷ ps) (t ∷ ts)

-- AMQP topic exchanges: '*' stands for one token, and '#' for any number of tokens, none included.
pub data TopicMatch : List String → List String → Type 0 where
  done : TopicMatch [] []
  literal :
      {k t : String} {ps ts : List String} → k ≡ t → TopicMatch ps ts → TopicMatch (k ∷ ps) (t ∷ ts)
  star :
      {k t : String} {ps ts : List String}
      → k ≡ "*"
      → TopicMatch ps ts
      → TopicMatch (k ∷ ps) (t ∷ ts)
  hash_none :
      {k : String} {ps ts : List String} → k ≡ "#" → TopicMatch ps ts → TopicMatch (k ∷ ps) ts
  hash_more :
      {k t : String} {ps ts : List String}
      → k ≡ "#"
      → TopicMatch (k ∷ ps) ts
      → TopicMatch (k ∷ ps) (t ∷ ts)

hash_rest : (k : String) (ts : List String) → k ≡ "#" → TopicMatch (k ∷ []) ts
hash_rest k [] e = TopicMatch.hash_none e TopicMatch.done
hash_rest k (t ∷ ts) e = TopicMatch.hash_more e (hash_rest k ts e)

-- What the trie matches, a topic exchange matches.
pub Matches→TopicMatch : {ps ts : List String} → Matches ps ts → TopicMatch ps ts
Matches→TopicMatch Matches.done = TopicMatch.done
Matches→TopicMatch (Matches.literal e m) = TopicMatch.literal e (Matches→TopicMatch m)
Matches→TopicMatch (Matches.star e m) = TopicMatch.star e (Matches→TopicMatch m)
Matches→TopicMatch (Matches.hash_last {k} {t} {ts = ts} e nil) = rw nil (hash_rest k (t ∷ ts) e)
Matches→TopicMatch (Matches.hash_stop e m) = TopicMatch.hash_none e (Matches→TopicMatch m)
Matches→TopicMatch (Matches.hash_skip e m) = TopicMatch.hash_more e (Matches→TopicMatch m)

-- The last token is something other than '#'.
abbrev pub EndsHard : List String → Type 0
EndsHard [] = Unit
EndsHard (k ∷ []) = k ≢ "#"
EndsHard (k ∷ j ∷ ks) = EndsHard (j ∷ ks)

EndsHard-tail : (k : String) (ks : List String) → EndsHard (k ∷ ks) → EndsHard ks
EndsHard-tail k [] h = tt
EndsHard-tail k (j ∷ ks) h = h

not-TopicMatch-nil : (k : String) (ks : List String) → EndsHard (k ∷ ks) → ¬ TopicMatch (k ∷ ks) []
not-TopicMatch-nil k [] h (TopicMatch.hash_none e m) = h e
not-TopicMatch-nil k (j ∷ ks) h (TopicMatch.hash_none e m) = not-TopicMatch-nil j ks h m

stop_at :
    (k : String) (ps ts : List String)
    → k ≡ "#"
    → EndsHard (k ∷ ps)
    → TopicMatch ps ts
    → Matches ps ts
    → Matches (k ∷ ps) ts
stop_at k [] ts e h t m = absurd (h e)
stop_at k (j ∷ ps) [] e h t m = absurd (not-TopicMatch-nil j ps h t)
stop_at k (j ∷ ps) (t ∷ ts) e h _ m = Matches.hash_stop e m

-- Where the binding does not end in '#', the trie matches what a topic exchange matches.
pub TopicMatch→Matches : {ps ts : List String} → EndsHard ps → TopicMatch ps ts → Matches ps ts
TopicMatch→Matches h TopicMatch.done = Matches.done
TopicMatch→Matches h (TopicMatch.literal {k} {ps = ps} e m) =
    Matches.literal e (TopicMatch→Matches (EndsHard-tail k ps h) m)
TopicMatch→Matches h (TopicMatch.star {k} {ps = ps} e m) =
    Matches.star e (TopicMatch→Matches (EndsHard-tail k ps h) m)
TopicMatch→Matches h (TopicMatch.hash_none {k} {ps} {ts} e m) =
    stop_at k ps ts e h m (TopicMatch→Matches (EndsHard-tail k ps h) m)
TopicMatch→Matches h (TopicMatch.hash_more e m) = Matches.hash_skip e (TopicMatch→Matches h m)

abbrev pub NoHash : List String → Type 0
NoHash [] = Unit
NoHash (k ∷ ks) = (k ≢ "#") × NoHash ks

Matches-tail :
    {k t : String} {ps ts : List String} → k ≢ "#" → Matches (k ∷ ps) (t ∷ ts) → Matches ps ts
Matches-tail h (Matches.literal e m) = m
Matches-tail h (Matches.star e m) = m
Matches-tail h (Matches.hash_last e nil) = absurd (h e)
Matches-tail h (Matches.hash_stop e m) = absurd (h e)
Matches-tail h (Matches.hash_skip e m) = absurd (h e)

-- A '#' at the end never stands for no token, as it does on a topic exchange: where `ps`, free of
-- '#', matches the key, `ps` followed by '#' does not.
pub trailing_hash :
    {ps ts : List String}
    → NoHash ps
    → Matches ps ts
    → TopicMatch (ps ++ "#" ∷ []) ts × (¬ Matches (ps ++ "#" ∷ []) ts)
trailing_hash h Matches.done = (TopicMatch.hash_none refl TopicMatch.done, λ m. elim m [ ])
trailing_hash h (Matches.literal e m) =
    let (amqp, missed) = trailing_hash h.1 m in
    (TopicMatch.literal e amqp, λ m'. missed (Matches-tail h.0 m'))
trailing_hash h (Matches.star e m) =
    let (amqp, missed) = trailing_hash h.1 m in
    (TopicMatch.star e amqp, λ m'. missed (Matches-tail h.0 m'))
trailing_hash h (Matches.hash_last e nil) = absurd (h.0 e)
trailing_hash h (Matches.hash_stop e m) = absurd (h.0 e)
trailing_hash h (Matches.hash_skip e m) = absurd (h.0 e)

pub Matches-nil : {ps : List String} → Matches ps [] → ps ≡ []
Matches-nil Matches.done = refl
