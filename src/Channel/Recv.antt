-- ===== src/Channel/Recv.antt =====
-- src/pyon/net/channel.py, classes RecvChannel and BidirClientChannel.
use text.Mathlib.Text.{starts_with}
use Prim.Native.String.{◌++◌ as append}
use scioncc.Prelude.{
  ℕ, String, Bool, true, false, ◌||◌, Option, none, some, List, [], ◌∷◌, ◌++◌, ◌==◌, if◌then◌else◌,
  nat_eq, string_eq, option_eq, ok, err, modify, ◌>>=◌, ◌>>◌,
}
use scioncc.Prelude.Dict
use scioncc.Channel.{
  Name, name_trio, or_else, or_default, text_or, binding_of, Headers, Tag, RecvItem, delivered,
  shutdown, channel_closed, assertion, attribute_error, blocked, Transport, s_closed, s_closing,
  state_eq, listen_channel, send_channel, recv_channel, accepted_channel, Channel,
}
use scioncc.Channel.Base.{Method, ensure_transport, call, declare_exchange, stop_consume, send_to}

abbrev named : {A : Type 0} → (Name → Option A) → Option Name → Option A
named f none = none
named f (some n) = f n

module _ {Body : Type 0} where
  -- The loop of `recv` on the queue's items: what it returns or raises, and what is left. While the
  -- channel discards, it passes over messages up to a shutdown.
  unfoldable pub recv_from :
      Bool → List (RecvItem Body) → Option (Option (Body × Headers × Tag)) × List (RecvItem Body)
  recv_from discard [] = (none, [])
  recv_from discard (shutdown ∷ items) = (some none, items)
  recv_from discard (delivered body headers tag ∷ items) =
      let rest = recv_from discard items in
      if discard then rest else (some (some (body, headers, tag)), items)

module _ {Body W : Type 0} where
  -- The four properties: what is set on the channel comes before what the name says.
  unfoldable pub queue_durable : Channel Body W → Bool
  queue_durable c =
      or_default (or_else c.own_queue_durable (named (λ n. n.queue_durable) c.recv_name)) false

  unfoldable pub queue_auto_delete : Channel Body W → Bool
  queue_auto_delete c =
      or_default (or_else c.own_queue_auto_delete (named (λ n. n.queue_auto_delete) c.recv_name))
        false

  unfoldable pub queue_msg_expiration : Channel Body W → Option ℕ
  queue_msg_expiration c =
      or_else c.own_queue_msg_expiration (named (λ n. n.queue_msg_expiration) c.recv_name)

  unfoldable pub queue_expiration : Channel Body W → Option ℕ
  queue_expiration c = or_else c.own_queue_expiration (named (λ n. n.queue_expiration) c.recv_name)

  -- `_should_discard`, which ListenChannel overrides.
  unfoldable pub should_discard : Channel Body W → Bool
  should_discard c = elim c.kind [
    | listen_channel ↦ (c.current_state == some s_closed) || (c.current_state == some s_closing)
    | send_channel ↦ c.current_state == some s_closed
    | recv_channel ↦ c.current_state == some s_closed
    | accepted_channel ↦ c.current_state == some s_closed
  ]

  unfoldable pub recv : Method Body W (Body × Headers × Tag)
  recv c =
      let (got, items) = recv_from (should_discard c) c.recv_queue in
      let left = record c { recv_queue = items } in
      elim got [
        | none ↦ (err blocked, left)
        | some none ↦ (err channel_closed, left)
        | some (some m) ↦ (ok m, left)
      ]

  -- `_on_deliver`
  unfoldable pub on_deliver : String → Tag → Headers → Body → Channel Body W → Channel Body W
  on_deliver routing_key tag headers body c = record c {
    recv_queue =
        c.recv_queue ++ delivered body (Dict.put headers "routing_key" routing_key) tag ∷ [];
  }

  abbrev recv_name_or : Option Name → Method Body W Name
  recv_name_or (some n) c = (ok n, c)
  recv_name_or none c = elim c.recv_name [ none ↦ (err attribute_error, c) | some n ↦ (ok n, c) ]

  -- `self._recv_name.queue`, after `assert self._recv_name and self._recv_name.queue`
  abbrev asserted_queue : Method Body W String
  asserted_queue c = elim (named (λ n. n.queue) c.recv_name) [
    | none ↦ (err assertion, c)
    | some q ↦ if q == "" then (err assertion, c) else (ok q, c)
  ]

-- "exchange.queue", if the queue's name does not begin with the exchange's.
abbrev pub prefixed : String → Option String → String
prefixed exchange none = ""
prefixed exchange (some queue) =
    if queue == ""
    then ""
    else if starts_with queue (append exchange ".")
    then queue
    else append exchange (append "." queue)

abbrev name_binding : Option Name → Option String
name_binding none = none
name_binding (some n) = binding_of n

-- BidirClientChannel._send: where the reply goes, unless the caller has said so.
unfoldable pub with_reply_to : Headers → Name → Headers
with_reply_to headers recv_name =
    if Dict.has_key headers "reply-to"
    then headers
    else Dict.put headers "reply-to"
        (append recv_name.exchange (append "," (or_default recv_name.queue "None")))

module _ {Body W : Type 0} (T : Transport Body W) where
  open T use {
    declare_queue_impl, delete_queue_impl, bind_impl, unbind_impl, start_consume_impl, ack_impl,
    reject_impl, get_stats_impl, purge_impl,
  }

  -- `_declare_queue`: the name is replaced where the broker's name for the queue differs.
  unfoldable pub declare_queue : Option String → Method Body W (Option String)
  declare_queue queue c = elim c.recv_name [
    | none ↦ (err attribute_error, c)
    | some name ↦
        let auto_delete = queue_auto_delete c in
        let durable = queue_durable c in
        (ensure_transport (
              call (
                declare_queue_impl (prefixed name.exchange queue) durable auto_delete
                  (queue_msg_expiration c) (queue_expiration c)))
            >>= λ queue_name. λ c'. if name.queue == some queue_name then (ok name.queue, c') else (
              ok (some queue_name),
              record c' {
                recv_name = some (name_trio name.exchange (some queue_name) (binding_of name));
              },
            ))
          c
  ]

  -- `_bind`
  unfoldable pub bind : String → Method Body W (Unit {0})
  bind binding = asserted_queue >>= λ queue.
      (λ c.
        let exchange : String = elim c.recv_name [ none ↦ "" | some n ↦ n.exchange ] in
        ensure_transport (call (bind_impl exchange queue binding)) c)
      >> modify (λ c'. record c' { recv_binding = some binding })

  -- `_destroy_binding`, `_destroy_queue`, of which destroy_listener is the latter
  unfoldable pub destroy_binding : Method Body W (Unit {0})
  destroy_binding c = elim c.recv_name [
    | none ↦ (err assertion, c)
    | some name ↦
        if c.attached
        then ensure_transport
            (call
              (unbind_impl name.exchange (or_default name.queue "") (or_default c.recv_binding "")))
            c
        else (err assertion, c)
  ]

  unfoldable pub destroy_queue : Method Body W (Unit {0})
  destroy_queue c = elim c.recv_name [
    | none ↦ (err assertion, c)
    | some name ↦
        if c.attached
        then ensure_transport (call (delete_queue_impl (or_default name.queue ""))) c
        else (err assertion, c)
  ]

  -- `start_consume`, `_on_start_consume`: the flag is set before the transport is asked.
  unfoldable pub start_consume : Method Body W (Unit {0})
  start_consume c =
      if c.consuming
      then (ok tt, c)
      else (modify (λ c'. record c' { consuming = true })
            >> ensure_transport (λ c'. elim c'.recv_name [
              | none ↦ (err attribute_error, c')
              | some name ↦
                  call
                    (start_consume_impl (or_default name.queue "") c'.consumer_no_ack
                      c'.consumer_exclusive)
                    c'
            ])
            >>= λ tag. modify (λ c'. record c' { consumer_tag = some tag }))
          c

  -- RecvChannel.reset
  unfoldable pub reset : Method Body W (Unit {0})
  unfolding stop_consume
  reset = stop_consume T

  unfoldable pub ack : Tag → Method Body W (Unit {0})
  ack delivery_tag = ensure_transport (call (ack_impl delivery_tag))

  unfoldable pub reject : Tag → Bool → Method Body W (Unit {0})
  reject delivery_tag requeue = ensure_transport (call (reject_impl delivery_tag requeue))

  unfoldable pub get_stats : Method Body W (ℕ × ℕ)
  get_stats = asserted_queue >>= λ queue. ensure_transport (call (get_stats_impl queue))

  unfoldable pub purge : Method Body W (Unit {0})
  purge = asserted_queue >>= λ queue. ensure_transport (call (purge_impl queue))

  unfoldable pub bidir_send : Name → Body → Headers → Method Body W (Unit {0})
  unfolding with_reply_to
  bidir_send name body headers c = elim c.recv_name [
    | none ↦
        if Dict.has_key headers "reply-to"
        then send_to T name body headers c
        else (err attribute_error, c)
    | some n ↦ send_to T name body (with_reply_to headers n) c
  ]

module _ {Body W : Type 0} (T : Transport Body W) (durable_names : Bool) where
  abbrev bind_listener : Option String → Option String → Method Body W (Unit {0})
  bind_listener binding queue c =
      elim (text_or binding (text_or c.recv_binding (text_or (name_binding c.recv_name) queue))) [
        | none ↦ (err attribute_error, c)
        | some b ↦ bind T b c
      ]

  unfoldable pub setup_listener : Option Name → Option String → Method Body W (Unit {0})
  unfolding declare_queue bind declare_exchange
  setup_listener name binding = recv_name_or name >>= λ n. λ c.
      if c.setup_listener_called
      then (ok tt, c)
      else (modify (λ c'. record c' { recv_name = some n })
            >> declare_exchange T durable_names n.exchange
            >> declare_queue T n.queue
            >>= bind_listener binding
            >> modify (λ c'. record c' { setup_listener_called = true }))
          c
