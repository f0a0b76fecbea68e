-- ===== src/Channel/Listen.antt =====
-- src/pyon/net/channel.py, class ListenChannel, its AcceptedListenChannel, and ServerChannel.
use scioncc.Prelude.{
  ℕ, zero, suc, Bool, false, not, ◌&&◌, ◌||◌, none, some, List, [], ◌∷◌, map, ◌==◌, if◌then◌else◌,
  leb, length, nat_eq, string_eq, option_eq, pair_eq, contains, append_new, remove_first, Result,
  ok, err, modify, pure, when, ◌>>=◌, ◌>>◌,
}
use scioncc.Channel.{
  Headers, Tag, RecvItem, delivered, ChannelError, assertion, timed_out, Transport, s_active,
  s_closed, i_enter_accept, i_exit_accept, state_eq, accepted_channel, Channel,
}
use scioncc.Channel.Base.{init, Method, call, stop_consume, process_input}
use scioncc.Channel.Recv.{queue_auto_delete, should_discard, recv, start_consume, ack, reject}

-- An AcceptedListenChannel: a channel of its own, and the tags that its `recv` has noted.
pub record Accepted (Body W : Type 0) : Type 0 where
  pub channel : Channel Body W
  pub delivery_tags : List Tag

-- `_create_accepted_channel`, which a ServerChannel overrides.
abbrev pub Create : Type 0 → Type 0 → Type 0
Create Body W = Channel Body W → List (Body × Headers × Tag) → Result ChannelError (Accepted Body W)

module _ {Body : Type 0} where
  abbrev pub item_of : Body × Headers × Tag → RecvItem Body
  item_of (body, headers, tag) = delivered body headers tag

module _ {Body W : Type 0} where
  -- `await_n` is fired by the number of items or by the end of the channel.
  unfoldable pub is_fired : ℕ → Channel Body W → Bool
  unfolding should_discard
  is_fired n c = should_discard c || leb n (length c.recv_queue)

  -- `[self.recv() for x in xrange(n)]`
  unfoldable pub recv_n : ℕ → Method Body W (List (Body × Headers × Tag))
  recv_n zero = pure []
  recv_n (suc n) = recv >>= λ m. recv_n n >>= λ ms. pure (m ∷ ms)

  -- A channel of class AcceptedListenChannel on the same transport, with the messages in its queue.
  unfoldable pub accepted_of : Channel Body W → List (Body × Headers × Tag) → Accepted Body W
  unfolding init
  accepted_of parent ms = record {
    channel = record (init accepted_channel false none none parent.world) {
      current_state = some s_active;
      attached = parent.attached;
      recv_queue = map item_of ms;
    };
    delivery_tags = [];
  }

  abbrev pub create_accepted : Create Body W
  create_accepted c ms = ok (accepted_of c ms)

module _ {Body W : Type 0} (T : Transport Body W) where
  open T use {qos_impl, is_amqp}

  -- Where an AMQP queue would be deleted with its consumer, it is left consuming.
  abbrev pub keeps_consuming : Channel Body W → Bool
  keeps_consuming c = queue_auto_delete c && (c.attached && is_amqp)

  -- "tune QOS to get exactly n messages", and start consuming
  unfoldable pub begin_accept : ℕ → Method Body W (Unit {0})
  unfolding start_consume queue_auto_delete
  begin_accept n = (λ c. when (not (keeps_consuming c)) (call (qos_impl n)) c) >> start_consume T

  -- The `finally` of the wait.
  unfoldable pub end_accept : Bool → Method Body W (Unit {0})
  unfolding stop_consume queue_auto_delete
  end_accept was_consuming c =
      when (not was_consuming && not (keeps_consuming c)) (stop_consume T) c

  -- After the wait: what was received becomes the accepted channel's.
  unfoldable pub take_messages : Create Body W → ℕ → Method Body W (Accepted Body W)
  unfolding recv_n process_input
  take_messages create n = recv_n n >>= λ ms. λ c. elim (create c ms) [
    | err e ↦ (err e, c)
    | ok ch ↦ (process_input T i_enter_accept >> pure ch) c
  ]

  -- `accept`; `during` is what other greenlets do to the channel while it waits. Where the wait is
  -- not fired by then, it times out, and the `finally` runs all the same.
  unfoldable pub accept :
      Create Body W → (Channel Body W → Channel Body W) → ℕ → Method Body W (Accepted Body W)
  unfolding begin_accept end_accept is_fired take_messages should_discard
  accept create during n c =
      if not ((c.current_state == some s_active) || (c.current_state == some s_closed))
      then (err assertion, c)
      else (when (not (should_discard c) && not c.consuming) (begin_accept n)
            >> modify during
            >> (λ c'.
                let fired = is_fired n c' in
                (end_accept c.consuming
                    >> (λ c''. if fired then (ok tt, c'') else (err timed_out, c'')))
                  c')
            >> take_messages create n)
          c

  -- `exit_accept`
  unfoldable pub exit_accept : Method Body W (Unit {0})
  unfolding process_input
  exit_accept = process_input T i_exit_accept

  -- AcceptedListenChannel.recv
  unfoldable pub accepted_recv :
      Accepted Body W → Result ChannelError (Body × Headers × Tag) × Accepted Body W
  unfolding recv
  accepted_recv a =
      let (r, c) = recv a.channel in
      elim r [
        | err e ↦ (err e, record a { channel = c })
        | ok m ↦ (ok m, record { channel = c; delivery_tags = append_new a.delivery_tags m.2 })
      ]

  -- `_checkin`, on the tags and the parent channel.
  unfoldable pub checkin :
      Tag → List Tag × Channel Body W → Result ChannelError (Unit {0}) × (List Tag × Channel Body W)
  unfolding exit_accept
  checkin delivery_tag (tags, parent) =
      if not (contains tags delivery_tag)
      then (ok tt, (tags, parent))
      else (let left = remove_first tags delivery_tag in
          elim left [
            | [] ↦ (let (r, parent') = exit_accept parent in (r, ([], parent')))
            | t ∷ ts ↦ (ok tt, (t ∷ ts, parent))
          ])

  -- AcceptedListenChannel.ack and reject: `settle` is what RecvChannel does on the transport.
  unfoldable pub settled :
      Method Body W (Unit {0})
      → Tag
      → Accepted Body W × Channel Body W
      → Result ChannelError (Unit {0}) × (Accepted Body W × Channel Body W)
  unfolding checkin
  settled settle delivery_tag (a, parent) =
      let (r, c) = settle a.channel in
      elim r [
        | err e ↦ (err e, (record a { channel = c }, parent))
        | ok u ↦
            let (r', (tags, parent')) = checkin delivery_tag (a.delivery_tags, parent) in
            (r', (record { channel = c; delivery_tags = tags }, parent'))
      ]

  abbrev pub accepted_ack :
      Tag
      → Accepted Body W × Channel Body W
      → Result ChannelError (Unit {0}) × (Accepted Body W × Channel Body W)
  accepted_ack delivery_tag = settled (ack T delivery_tag) delivery_tag

  abbrev pub accepted_reject :
      Tag
      → Bool
      → Accepted Body W × Channel Body W
      → Result ChannelError (Unit {0}) × (Accepted Body W × Channel Body W)
  accepted_reject delivery_tag requeue = settled (reject T delivery_tag requeue) delivery_tag
