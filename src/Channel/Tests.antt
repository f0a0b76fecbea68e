-- ===== src/Channel/Tests.antt =====
-- Concrete channels, over a transport that counts its calls.
use scioncc.Prelude.{
  ap, In, arith, ℕ, suc, ◌≡◌, refl, String, true, false, none, some, inl, inr, List, [], ◌∷◌, ◌++◌,
  map, Result, ok, contains, nat_eq, string_eq, pair_eq,
}
use scioncc.Prelude.Dict
use scioncc.Channel.{
  Name, name_trio, Headers, Tag, shutdown, ChannelError, Transport, s_active, s_accepted,
  listen_channel, Channel,
}
use scioncc.Channel.Base.{init, close}
use scioncc.Channel.Recv.{should_discard, with_reply_to}
use scioncc.Channel.Listen.{Accepted, recv_n, item_of, checkin}
use scioncc.Channel.ReplyTo.{server_accepted}
use scioncc.Channel.Lifecycle.{at}
use scioncc.Channel.Recving.{recv_n-append}
use scioncc.Channel.Checkin.{checkins, checkins-exit_accept}
use scioncc.Channel.Notify.{SizeNotifyQueue}
use scioncc.Channel.Replying.{server_accepted-with_reply_to}

abbrev counted : {A : Type 0} → A → ℕ → Result ChannelError A × ℕ
counted a w = (ok a, suc w)

abbrev transport : Transport String ℕ
transport = record {
  declare_exchange_impl = λ e d a. counted tt;
  declare_queue_impl = λ q d a m x. counted q;
  delete_queue_impl = λ q. counted tt;
  bind_impl = λ e q b. counted tt;
  unbind_impl = λ e q b. counted tt;
  publish_impl = λ e k b h d. counted tt;
  start_consume_impl = λ q n x. counted 7;
  stop_consume_impl = λ t. counted tt;
  ack_impl = λ t. counted tt;
  reject_impl = λ t r. counted tt;
  get_stats_impl = λ q. counted (1, 1);
  purge_impl = λ q. counted tt;
  qos_impl = λ n. counted tt;
  close = counted tt;
  closes_at_once = true;
  is_amqp = false;
}

abbrev listen_name : Name
listen_name = name_trio "xp" (some "xp.q") none

abbrev listening : Channel String ℕ
listening = record (init listen_channel false (some listen_name) none 0) {
  current_state = some s_active;
  attached = true;
  consuming = true;
}

abbrev messages : List (String × Headers × Tag)
messages = ("a", [], (0, 1)) ∷ ("b", [], (0, 2)) ∷ []

program : Unit {0}
unfolding init close should_discard with_reply_to contains Dict.get Dict.put
program = tt

recv_n-append_example :
    recv_n 2 (record listening { recv_queue = map item_of messages ++ shutdown ∷ [] })
    ≡ (ok messages, record listening { recv_queue = shutdown ∷ [] })
unfolding program
recv_n-append_example = recv_n-append listening messages (shutdown ∷ []) refl

abbrev noted : List Tag
noted = (0, 1) ∷ (0, 2) ∷ []

same_noted : (x : Tag) → contains noted x ≡ contains ((0, 2) ∷ (0, 1) ∷ []) x
unfolding contains
same_noted x = ground arith

checkins-exit_accept_example :
    let accepted = at listening listen_channel s_accepted in
    ((checkins transport ((0, 2) ∷ []) (noted, accepted)).1 ≡ accepted)
    × (checkin transport (0, 1) (checkins transport ((0, 2) ∷ []) (noted, accepted))
        ≡ (ok tt, ([], record (at listening listen_channel s_active) { next_state = none })))
unfolding program
checkins-exit_accept_example =
    checkins-exit_accept transport ((0, 2) ∷ []) (0, 1) noted listening (refl, (refl, tt))
      (refl, (refl, tt)) same_noted

abbrev waiting : SizeNotifyQueue String
waiting = record { items = "a" ∷ []; size_ar = none; await_number = 0 }

abbrev client_name : Name
client_name = name_trio "xp" (some "xp.reply") none

abbrev request : String × Headers × Tag
request = ("body", with_reply_to [] client_name, (0, 1))

server_accepted-with_reply_to_example :
    (a : Accepted String ℕ) × (server_accepted listening (request ∷ []) ≡ ok a)
    × (a.channel.send_name ≡ some (name_trio "xp" (some "xp.reply") (some "reply")))
    × (a.channel.recv_queue ≡ item_of request ∷ [])
unfolding program
server_accepted-with_reply_to_example =
    server_accepted-with_reply_to listening client_name "reply" [] request [] (refl, (refl, tt))
      refl refl same_reply
  where
    same_reply :
        (x : String × Headers × Tag)
        → In x (request ∷ [])
        → Dict.get x.1 "reply-to" ≡ Dict.get (with_reply_to [] client_name) "reply-to"
    same_reply x (inl e) = ap (λ m. Dict.get m.1 "reply-to") e
    same_reply x (inr h) = absurd h
