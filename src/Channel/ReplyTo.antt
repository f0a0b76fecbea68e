-- ===== src/Channel/ReplyTo.antt =====
-- src/pyon/net/channel.py, ServerChannel._create_accepted_channel: the channel back to the reply-to
-- name that a BidirClientChannel has put into a message's headers.
use text.Mathlib.Text.{starts_with}
use Prim.Native.Char.{Char, code}
use scioncc.Prelude.{
  String, Option, none, some, List, [], ◌∷◌, map, ◌==◌, if◌then◌else◌, nat_eq, string_eq, option_eq,
  dedupe, Result, ok, err,
}
use scioncc.Prelude.Dict
use scioncc.Channel.{
  Name, name_trio, Headers, Tag, ChannelError, assertion, attribute_error, value_error,
}
use scioncc.Channel.Base.{connect}
use scioncc.Channel.Listen.{Create, accepted_of}

abbrev split_step : Char → String → Option (String × String) → Option (String × String)
split_step c s none = if code c == b',' then some ("", s) else none
split_step c s (some (a, b)) = if code c == b',' then some ("", s) else some (String.◌∷◌ c a, b)

-- `xs_name, xn_name = reply_to.split(',', 1)`, which raises where there is no comma.
unfoldable pub split_reply_to : String → Option (String × String)
split_reply_to String.[] = none
split_reply_to (String.◌∷◌ c s) = split_step c s (split_reply_to s)

-- `s[len(p) + 1:]`
unfoldable pub after_prefix : String → String → String
after_prefix String.[] String.[] = ""
after_prefix String.[] (String.◌∷◌ d s) = s
after_prefix (String.◌∷◌ c p) String.[] = ""
after_prefix (String.◌∷◌ c p) (String.◌∷◌ d s) = after_prefix p s

unfoldable pub reply_binding : String → String → String
unfolding after_prefix
reply_binding xs_name xn_name =
    if starts_with xn_name xs_name then after_prefix xs_name xn_name else xn_name

-- What a reply is sent to, of the reply-to headers that the messages have.
unfoldable pub reply_name : List (Option String) → Result ChannelError Name
unfolding split_reply_to reply_binding
reply_name [] = err assertion
reply_name (none ∷ []) = err attribute_error
reply_name (some reply_to ∷ []) = elim (split_reply_to reply_to) [
  | none ↦ err value_error
  | some p ↦ ok (name_trio p.0 (some p.1) (some (reply_binding p.0 p.1)))
]
reply_name (a ∷ b ∷ others) = err assertion

module _ {Body : Type 0} where
  abbrev pub reply_to_set : List (Body × Headers × Tag) → List (Option String)
  reply_to_set msgs = dedupe (map (λ m. Dict.get m.1 "reply-to") msgs)

module _ {Body W : Type 0} where
  unfoldable pub server_accepted : Create Body W
  unfolding reply_name accepted_of connect
  server_accepted c ms = elim (reply_name (reply_to_set ms)) [
    | err e ↦ err e
    | ok send_name ↦
        let ch = accepted_of c ms in
        ok (record ch {
          channel = connect send_name (record ch.channel { recv_name = c.recv_name });
        })
  ]
