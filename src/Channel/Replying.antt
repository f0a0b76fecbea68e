-- ===== src/Channel/Replying.antt =====
-- src/pyon/net/channel.py: the reply-to header that a BidirClientChannel writes, read by a
-- ServerChannel.
use text.Mathlib.TextPositions.{starts_with-append}
use text.Mathlib.TextLemmas.{cons-append, nil-append}
use Prim.Native.Char.{code}
use Prim.Native.String.{◌++◌ as append}
use scioncc.Prelude.{
  Option-cases, ◌≡◌, refl, sym, ap, ◌∙◌, String, false, Option, none, some, inl, inr, List, [], ◌∷◌,
  map, ◌==◌, eq_refl, In, contains, dedupe, ok, nat_eq, string_eq, option_eq, arith,
}
use scioncc.Prelude.Dict
use scioncc.Prelude.Dict.{get-put}
use scioncc.Channel.{Name, or_default, name_trio, Headers, Tag, Channel}
use scioncc.Channel.Base.{connect}
use scioncc.Channel.Recv.{with_reply_to}
use scioncc.Channel.Listen.{Accepted, accepted_of, item_of}
use scioncc.Channel.ReplyTo.{
  split_reply_to, after_prefix, reply_binding, reply_name, reply_to_set, server_accepted,
}

-- No character is a comma.
abbrev pub NoComma : String → Type 0
NoComma String.[] = Unit
NoComma (String.◌∷◌ c s) = ((code c == b',') ≡ false) × NoComma s

append_comma : (q : String) → append "," q ≡ String.◌∷◌ "," q
append_comma q = cons-append "," "" q ∙ ap (String.◌∷◌ ",") (nil-append q)

append_dot : (s : String) → append "." s ≡ String.◌∷◌ "." s
append_dot s = cons-append "." "" s ∙ ap (String.◌∷◌ ".") (nil-append s)

split_comma : (q : String) → split_reply_to (String.◌∷◌ "," q) ≡ some ("", q)
unfolding split_reply_to
split_comma q = elim (Option-cases (split_reply_to q)) [
  | inl h ↦ rw h refl
  | inr (p, h) ↦ rw h refl
]

split-append : (x q : String) → NoComma x → split_reply_to (append x (append "," q)) ≡ some (x, q)
unfolding split_reply_to
split-append String.[] q h =
    ap split_reply_to (nil-append (append "," q) ∙ append_comma q) ∙ split_comma q
split-append (String.◌∷◌ c x) q h =
    ap split_reply_to (cons-append c x (append "," q)) ∙ ground (arith, split-append x q h.1, h.0)

after-append : (x s : String) → after_prefix x (append x (append "." s)) ≡ s
unfolding after_prefix
after-append String.[] s = ap (after_prefix "") (nil-append (append "." s) ∙ append_dot s)
after-append (String.◌∷◌ c x) s =
    ap (after_prefix (String.◌∷◌ c x)) (cons-append c x (append "." s)) ∙ after-append x s

-- The part of a queue's name behind the exchange's.
reply_binding-append : (x s : String) → reply_binding x (append x (append "." s)) ≡ s
unfolding reply_binding
reply_binding-append x s = rw (starts_with-append x (append "." s)) (after-append x s)

module _ {Body : Type 0} where
  -- Messages with one reply-to make up a set of one.
  reply_to_set_same :
      (m : Body × Headers × Tag) (ms : List (Body × Headers × Tag)) (r : Option String)
      → ((x : Body × Headers × Tag) → In x (m ∷ ms) → Dict.get x.1 "reply-to" ≡ r)
      → reply_to_set (m ∷ ms) ≡ r ∷ []
  unfolding dedupe contains
  reply_to_set_same m [] r same = ap (λ x. x ∷ []) (same m (inl refl))
  reply_to_set_same m (m' ∷ ms) r same =
      let rest = reply_to_set_same m' ms r (λ x h. same x (inr h)) in
      ground (arith, rest, same m (inl refl), eq_refl r)

written :
    (headers : Headers) (n : Name) (q : String)
    → n.queue ≡ some q
    → Dict.get headers "reply-to" ≡ none
    → Dict.get (with_reply_to headers n) "reply-to" ≡ some (append n.exchange (append "," q))
unfolding with_reply_to
written headers n q nq fresh =
    let to : String = append n.exchange (append "," (or_default n.queue "None")) in
    ground
      (arith, nq, fresh, get-put headers "reply-to" "reply-to" to, eq_refl {A = String} "reply-to")

module _ {Body W : Type 0} where
  -- A client with the queue `exchange.local`, of an exchange without a comma, writes its reply-to into
  -- headers that have none; of any messages with that reply-to a server's accepted channel, which holds
  -- them all, sends to that exchange and queue, by the binding `local`.
  pub server_accepted-with_reply_to :
      (c : Channel Body W) (n : Name) (local : String) (headers : Headers)
      (m : Body × Headers × Tag) (ms : List (Body × Headers × Tag))
      → NoComma n.exchange
      → n.queue ≡ some (append n.exchange (append "." local))
      → Dict.get headers "reply-to" ≡ none
      → ((x : Body × Headers × Tag)
          → In x (m ∷ ms)
          → Dict.get x.1 "reply-to" ≡ Dict.get (with_reply_to headers n) "reply-to")
      → (a : Accepted Body W) × (server_accepted c (m ∷ ms) ≡ ok a)
        × (a.channel.send_name ≡ some (name_trio n.exchange n.queue (some local)))
        × (a.channel.recv_queue ≡ map item_of (m ∷ ms))
  unfolding server_accepted reply_name connect accepted_of
  server_accepted-with_reply_to c n local headers m ms clean nq fresh same =
      let q : String = append n.exchange (append "." local) in
      let one =
        reply_to_set_same m ms (some (append n.exchange (append "," q)))
          (λ x h. same x h ∙ written headers n q nq fresh) in
      let name = name_trio n.exchange (some q) (some local) in
      let ch : Accepted Body W = accepted_of c (m ∷ ms) in
      let to : reply_name (reply_to_set (m ∷ ms)) ≡ ok name =
        ap reply_name one
        ∙ ground (arith, split-append n.exchange q clean, reply_binding-append n.exchange local) in
      (
        record ch { channel = connect name (record ch.channel { recv_name = c.recv_name }) },
        rw (to, server_accepted) refl,
        ap (λ z. some (name_trio n.exchange z (some local))) (sym nq),
        refl,
      )
