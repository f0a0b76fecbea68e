-- ===== src/LocalTransport/Tests.antt =====
-- Channels over a router with one queue bound: a message sent on one, and others that listen.
use scioncc.Prelude.{
  ℕ, ◌≡◌, refl, String, true, false, Option, none, some, List, [], ◌∷◌, ◌++◌, contains, append_new,
  string_eq, pair_eq, ok, ◌>>◌, map, arith,
}
use scioncc.Prelude.Dict
use scioncc.Topic.{TopicTrie, split, get_child, update_child, update_path, add_topic_tree, new_node}
use scioncc.Channel.{
  Name, name_trio, Headers, Tag, shutdown, Transport, s_active, s_accepted, s_closing, send_channel,
  listen_channel, Channel,
}
use scioncc.Channel.Recv.{should_discard, queue_auto_delete}
use scioncc.Channel.Listen.{accepted_of, create_accepted, accept, exit_accept, item_of}
use scioncc.Channel.Lifecycle.{at, IsClosed, IsWilling}
use scioncc.Channel.Closing.{close-IsClosed, close-exit_accept}
use scioncc.Channel.Accepting.{IsServing, accept-accepted_of}
use scioncc.Channel.Base
use scioncc.Channel.Base.{send, close}
use scioncc.Router.{Router, message, init, declare_exchange, declare_named, bind}
use scioncc.Router.Consuming
use scioncc.Router.Consuming.{run_gl_msgs}
use scioncc.Router.Bound.{IsValid, IsValid-init, declare_exchange-IsValid, declare_named-IsValid}
use scioncc.Router.Bind.{bind-IsValid}
use scioncc.Router.Deliver.{HasMatch}
use scioncc.IdPool
use scioncc.LocalTransport.{local_transport, stop_consume_impl}
use scioncc.LocalTransport.Sending.{transport, sent, send-run_gl_msgs}

program : Unit {0}
unfolding split get_child update_child update_path add_topic_tree contains append_new Dict.get
    Dict.put init declare_exchange declare_named bind Base.init local_transport stop_consume_impl
    Consuming.start_consume Consuming.stop_consume IdPool.get_id close should_discard Dict.remove
    queue_auto_delete
program = tt

abbrev pop : List ℕ → Option (ℕ × List ℕ)
pop [] = none
pop (x ∷ xs) = some (x, xs)

abbrev broker : Router String Headers
broker = (bind (declare_named (declare_exchange init "xp") "xp.q") "xp" "xp.q" "q").1

broker-IsValid : IsValid broker
broker-IsValid = bind-IsValid (declare_named (declare_exchange init "xp") "xp.q") "xp" "xp.q" "q" (
    declare_named-IsValid (declare_exchange init "xp") "xp.q"
      (declare_exchange-IsValid init "xp" IsValid-init))

abbrev address : Name
address = name_trio "xp" (some "xp.q") (some "q")

abbrev sender : Channel String (Router String Headers)
sender = record (Base.init send_channel false none none broker) {
  current_state = some s_active;
  attached = true;
  send_name = some address;
}

abbrev trie : TopicTrie String
trie = add_topic_tree (new_node none) "q" "xp.q"

send-run_gl_msgs_example :
    ((send (transport pop []) "hello" [] sender).0 ≡ ok tt)
    × (r : Router String Headers) × (run_gl_msgs (send (transport pop []) "hello" [] sender).1.world
        ≡ some r)
    × (r.queues ≡ broker.queues)
    × ((q : String) (o : ℕ)
        → Dict.get broker.queues q ≡ some o
        → (HasMatch broker "xp" "q" q
            → r.objects o ≡ broker.objects o ++ message (sent pop [] address "q" "hello" []) ∷ [])
          × (¬ HasMatch broker "xp" "q" q → r.objects o ≡ broker.objects o))
unfolding program
send-run_gl_msgs_example =
    send-run_gl_msgs pop [] sender address "q" "hello" [] trie refl refl refl broker-IsValid refl
      refl

abbrev local : Transport String (Router String Headers)
local = transport pop []

-- A listening channel, before and after its consumer is started.
abbrev listening : Channel String (Router String Headers)
listening = record (Base.init listen_channel false (some address) none broker) {
  current_state = some s_active;
  attached = true;
}

abbrev consuming : Channel String (Router String Headers)
consuming = record listening {
  world = (local.start_consume_impl "xp.q" false false broker).1;
  consumer_tag = some 1;
  consuming = true;
}

consuming-IsWilling : IsWilling local consuming
unfolding program
consuming-IsWilling = record { stops = λ h. refl; closes = refl }

close-IsClosed_example : ((close local consuming).0 ≡ ok tt) × IsClosed (close local consuming).1
unfolding program
close-IsClosed_example =
    close-IsClosed local consuming consuming-IsWilling (λ h. ground arith) (λ h. ground arith) refl
      refl refl

close-exit_accept_example :
    let accepted = at consuming listen_channel s_accepted in
    ((close local accepted).0 ≡ ok tt)
    × ((close local accepted).1.current_state ≡ some s_closing)
    × ((close local accepted).1.attached ≡ true)
    × ((close local accepted).1.world ≡ consuming.world)
    × (((close local >> exit_accept local) accepted).0 ≡ ok tt)
    × IsClosed ((close local >> exit_accept local) accepted).1
unfolding program
close-exit_accept_example = close-exit_accept local consuming consuming-IsWilling refl refl

abbrev messages : List (String × Headers × Tag)
messages = ("a", [], (1, 1)) ∷ ("b", [], (1, 2)) ∷ []

listening-IsServing : IsServing local 2 address (at listening listen_channel s_active)
unfolding program
listening-IsServing = record { tunes = λ h. refl; tag = 1; starts = refl; stops = refl }

accept-accepted_of_example :
    (d : Channel String (Router String Headers)) × (accept local create_accepted
        (λ c'. record c' { recv_queue = c'.recv_queue ++ (map item_of messages ++ shutdown ∷ []) })
        2
        (at listening listen_channel s_active)
      ≡ (ok (accepted_of d messages), d))
    × (d.current_state ≡ some s_accepted)
    × (d.recv_queue ≡ shutdown ∷ [])
    × (d.attached ≡ true)
unfolding program
accept-accepted_of_example =
    accept-accepted_of local listening address (map item_of messages ++ shutdown ∷ [])
      (shutdown ∷ []) messages (λ h. listening-IsServing) refl refl refl
