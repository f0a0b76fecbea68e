-- ===== src/Channel/Base.antt =====
-- src/pyon/net/channel.py, classes BaseChannel, SendChannel, PublisherChannel, and what the others
-- override of them: `close_impl` and the state machine's tables.
use scioncc.Prelude.{
  ℕ, String, Bool, true, false, not, ◌&&◌, ◌||◌, Option, none, some, [], ◌∷◌, ◌++◌, ◌==◌,
  if◌then◌else◌, nat_eq, string_eq, option_eq, pair_eq, is_some, Result, ok, err, Action, modify,
  when, ◌>>◌,
}
use scioncc.Fsm
use scioncc.Fsm.{Fsm, FsmError, action_error, undefined_transition, add_transition, process}
use scioncc.Channel.{
  Name, or_else, or_default, binding_of, Headers, shutdown, ChannelError, channel_error, assertion,
  attribute_error, fsm_error, Transport, ChannelState, s_init, s_active, s_closed, s_closing,
  s_accepted, ChannelInput, i_attach, i_close, i_enter_accept, i_exit_accept, ChannelAct, on_close,
  on_channel_close_again, on_close_while_accepted, state_eq, input_eq, ChannelKind, send_channel,
  recv_channel, listen_channel, accepted_channel, Channel,
}

abbrev pub Method : Type 0 → Type 0 → Type 0 → Type 0
Method Body W A = Action (Channel Body W) ChannelError A

abbrev pub Machine : Type 0 → Type 0 → Type 0
Machine Body W = Fsm ChannelInput ChannelState ChannelAct (Channel Body W)

abbrev name_auto_delete : Option Name → Option Bool
name_auto_delete none = none
name_auto_delete (some n) = n.exchange_auto_delete

abbrev name_durable : Option Name → Option Bool
name_durable none = none
name_durable (some n) = n.exchange_durable

module _ {Body W A : Type 0} where
  -- `with self._ensure_transport(): …`
  abbrev pub ensure_transport : Method Body W A → Method Body W A
  ensure_transport m c = if c.attached then m c else (err channel_error, c)

  -- A call of a method of the transport.
  abbrev pub call : (W → Result ChannelError A × W) → Method Body W A
  call f c = let (r, w) = f c.world in (r, record c { world = w })

module _ {Body W : Type 0} where
  -- The constructors: the close callback, and the name and binding of a channel that receives.
  unfoldable pub init : ChannelKind → Bool → Option Name → Option String → W → Channel Body W
  init kind close_callback name binding w = record {
    kind = kind;
    current_state = some s_init;
    next_state = none;
    attached = false;
    world = w;
    close_event = false;
    event_set = false;
    close_callback = close_callback;
    closed_error_callback = false;
    closed_errors = [];
    exchange = none;
    own_exchange_durable = none;
    own_exchange_auto_delete = none;
    send_name = none;
    recv_queue = [];
    recv_name = name;
    recv_binding = binding;
    own_queue_durable = none;
    own_queue_auto_delete = none;
    own_queue_msg_expiration = none;
    own_queue_expiration = none;
    consumer_exclusive = false;
    consumer_no_ack = false;
    consumer_tag = none;
    consuming = false;
    setup_listener_called = false;
  }

  -- The transitions that BaseChannel.__init__ adds.
  unfoldable pub base_fsm : Channel Body W → Machine Body W
  unfolding Fsm.init add_transition
  base_fsm c =
      add_transition
        (add_transition
          (add_transition
            (add_transition (Fsm.init (some s_init) c false) i_attach (some s_init) none
              (some s_active))
            i_close (some s_active) (some on_close) (some s_closed))
          i_close (some s_closed) (some on_channel_close_again) (some s_closed))
        i_close (some s_init) none (some s_closed)

  -- Those that ListenChannel.__init__ adds.
  unfoldable pub listen_fsm : Channel Body W → Machine Body W
  unfolding base_fsm add_transition
  listen_fsm c =
      add_transition
        (add_transition
          (add_transition
            (add_transition (base_fsm c) i_enter_accept (some s_active) none (some s_accepted))
            i_exit_accept (some s_accepted) none (some s_active))
          i_close (some s_accepted) none (some s_closing))
        i_exit_accept (some s_closing) (some on_close_while_accepted) (some s_closed)

  unfoldable pub tables : ChannelKind → Channel Body W → Machine Body W
  unfolding base_fsm listen_fsm
  tables listen_channel c = listen_fsm c
  tables send_channel c = base_fsm c
  tables recv_channel c = base_fsm c
  tables accepted_channel c = base_fsm c

  -- `self._fsm`, with the channel as what its actions reach.
  unfoldable pub fsm_of : Channel Body W → Machine Body W
  unfolding tables
  fsm_of c = record (tables c.kind c) {
    memory = c;
    current_state = c.current_state;
    next_state = c.next_state;
  }

  abbrev pub from_fsm : Machine Body W → Channel Body W
  from_fsm m = record m.memory { current_state = m.current_state; next_state = m.next_state }

  -- `exchange_auto_delete` and `exchange_durable`; `durable_names` is the configuration's value.
  unfoldable pub exchange_auto_delete : Bool → Channel Body W → Bool
  exchange_auto_delete durable_names c =
      if durable_names
      then false
      else or_default
          (or_else c.own_exchange_auto_delete
            (or_else (name_auto_delete c.send_name) (name_auto_delete c.recv_name)))
          true

  unfoldable pub exchange_durable : Bool → Channel Body W → Bool
  exchange_durable durable_names c =
      if durable_names
      then true
      else or_default
          (or_else c.own_exchange_durable
            (or_else (name_durable c.send_name) (name_durable c.recv_name)))
          false

  -- What reading the two properties stores on the channel.
  abbrev keep_durable : Bool → Channel Body W → Channel Body W
  keep_durable durable_names c =
      if durable_names
      then record c { own_exchange_durable = some true; own_exchange_auto_delete = some false }
      else c

  -- `on_channel_close`, the callback of a transport that has closed.
  unfoldable pub on_channel_close : ℕ → Channel Body W → Channel Body W
  on_channel_close code c =
      let failed = not ((code == 0) || (code == 200)) && c.closed_error_callback in
      let fixup = not (c.current_state == some s_closed) && not (is_some c.next_state) in
      record c {
        event_set = c.event_set || c.close_event;
        close_event = false;
        attached = false;
        closed_errors = if failed then c.closed_errors ++ code ∷ [] else c.closed_errors;
        current_state = if fixup then some s_closed else c.current_state;
      }

  unfoldable pub get_channel_id : ℕ → Channel Body W → Option ℕ
  get_channel_id channel_number c = if c.attached then some channel_number else none

  -- The old callback is returned.
  unfoldable pub set_closed_error_callback : Bool → Channel Body W → Bool × Channel Body W
  set_closed_error_callback callback c =
      (c.closed_error_callback, record c { closed_error_callback = callback })

  -- SendChannel.connect
  unfoldable pub connect : Name → Channel Body W → Channel Body W
  connect name c = record c { send_name = some name; exchange = some name.exchange }

module _ {Body W : Type 0} (T : Transport Body W) where
  open T use {publish_impl, start_consume_impl, stop_consume_impl}

  -- RecvChannel.stop_consume
  unfoldable pub stop_consume : Method Body W (Unit {0})
  stop_consume c =
      when c.consuming
        (ensure_transport (λ c'. call (stop_consume_impl c'.consumer_tag) c')
          >> modify (λ c'. record c' { consuming = false }))
        c

  -- BaseChannel.close_impl
  unfoldable pub base_close_impl : Method Body W (Unit {0})
  unfolding on_channel_close
  base_close_impl c =
      if c.attached
      then (call T.close
            >> modify (λ c'. if T.closes_at_once then on_channel_close 200 c' else c')
            >> modify (λ c'. record c' { attached = false }))
          c
      else (ok tt, c)

  -- RecvChannel.close_impl
  unfoldable pub recv_close_impl : Method Body W (Unit {0})
  unfolding stop_consume base_close_impl
  recv_close_impl =
      modify (λ c. record c { recv_queue = c.recv_queue ++ shutdown ∷ [] })
      >> stop_consume
      >> base_close_impl

  unfoldable pub close_impl : Method Body W (Unit {0})
  unfolding base_close_impl recv_close_impl
  close_impl c = elim c.kind [
    | send_channel ↦ base_close_impl c
    | recv_channel ↦ recv_close_impl c
    | listen_channel ↦ recv_close_impl c
    | accepted_channel ↦ (ok tt, c)
  ]

  abbrev pub act : ChannelAct → Method Body W (Unit {0})
  act on_close c = close_impl c
  act on_channel_close_again c = (ok tt, on_channel_close 0 c)
  act on_close_while_accepted c = (stop_consume >> close_impl) c

  -- An action on the machine that calls it.
  abbrev pub perform : ChannelAct → Machine Body W → Result ChannelError (Unit {0}) × Machine Body W
  perform a m =
      let (r, c) = act a (from_fsm m) in
      (r, record m { memory = c; current_state = c.current_state; next_state = c.next_state })

  abbrev pub fsm_result :
      Result (FsmError ChannelInput ChannelState ChannelError) (Option (Unit {0}))
      → Result ChannelError (Unit {0})
  fsm_result (ok r) = ok tt
  fsm_result (err (undefined_transition s q)) = err fsm_error
  fsm_result (err (action_error e)) = err e

  -- `self._fsm.process(input)`
  unfoldable pub process_input : ChannelInput → Method Body W (Unit {0})
  unfolding fsm_of close_impl
  process_input input c =
      let (r, m) = process perform (fsm_of c) input in (fsm_result r, from_fsm m)

  -- `close`: a pooled channel goes back to its pool by the callback, which is not the channel's
  -- doing; the event is set at once there.
  unfoldable pub close : Method Body W (Unit {0})
  unfolding process_input
  close c =
      if c.close_callback
      then (ok tt, record c { event_set = true })
      else process_input i_close (record c { close_event = true })

  -- attach_transport, by which on_channel_open ends.
  unfoldable pub attach_transport : Method Body W (Unit {0})
  unfolding process_input
  attach_transport c = process_input i_attach (record c { attached = true })

  -- SendChannel._send
  unfoldable pub send_to : Name → Body → Headers → Method Body W (Unit {0})
  send_to name body headers c =
      let durable_msg : Bool = elim c.send_name [
        | none ↦ false
        | some n ↦ or_default n.queue_durable false
      ] in
      ensure_transport
        (call (publish_impl name.exchange (binding_of name) body headers durable_msg)) c

  -- SendChannel.send
  unfoldable pub send : Body → Headers → Method Body W (Unit {0})
  unfolding send_to
  send body headers c = elim c.send_name [
    | none ↦ (err attribute_error, c)
    | some name ↦ send_to name body headers c
  ]

module _ {Body W : Type 0} (T : Transport Body W) (durable_names : Bool) where
  open T use {declare_exchange_impl}

  unfoldable pub declare_exchange : String → Method Body W (Unit {0})
  unfolding exchange_durable exchange_auto_delete
  declare_exchange exchange =
      modify (λ c. record c { exchange = some exchange })
      >> (λ c. if (exchange == "") || not c.attached then (err assertion, c) else (ok tt, c))
      >> ensure_transport (λ c.
        let durable = exchange_durable durable_names c in
        let auto_delete = exchange_auto_delete durable_names c in
        call (declare_exchange_impl exchange durable auto_delete) (keep_durable durable_names c))

  -- PublisherChannel.send
  unfoldable pub publisher_send : Body → Headers → Method Body W (Unit {0})
  unfolding declare_exchange send
  publisher_send body headers c = elim c.send_name [
    | none ↦ (err assertion, c)
    | some name ↦ (declare_exchange name.exchange >> send T body headers) c
  ]
