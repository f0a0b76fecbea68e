-- ===== src/Channel.antt =====
-- src/pyon/net/channel.py: the channels over which a container sends and receives. A channel's state
-- machine is an `Fsm` whose tables depend on the channel's class alone, so a channel keeps only the
-- machine's two states, and the machine is put together for each call of `process`.
--
-- A method runs with `_ensure_transport`'s lock and is not interrupted. A method that waits on an
-- empty queue raises `blocked`: nothing after it is done.
pub mod Base
pub mod Recv
pub mod Listen
pub mod ReplyTo
pub mod Recving
pub mod Lifecycle
pub mod Closing
pub mod Accepting
pub mod Checkin
pub mod Notify
pub mod Replying
mod Tests
use scioncc.Prelude.{
  ℕ, String, Bool, true, false, Option, none, some, List, [], ◌∷◌, Eq, ◌==◌, ◌↔◌, ◌≡◌, nat_eq,
  string_eq, Result, ok, err, arith,
}
use scioncc.Prelude.Dict.{Dict}

-- (exchange, queue, binding), a NameTrio, with the attributes that an exchange object adds.
pub record Name : Type 0 where
  pub exchange : String
  pub queue : Option String
  pub own_binding : Option String
  pub queue_durable : Option Bool
  pub queue_auto_delete : Option Bool
  pub queue_msg_expiration : Option ℕ
  pub queue_expiration : Option ℕ
  pub exchange_durable : Option Bool
  pub exchange_auto_delete : Option Bool

-- NameTrio(exchange, queue, binding)
abbrev pub name_trio : String → Option String → Option String → Name
name_trio exchange queue binding = record {
  exchange = exchange;
  queue = queue;
  own_binding = binding;
  queue_durable = none;
  queue_auto_delete = none;
  queue_msg_expiration = none;
  queue_expiration = none;
  exchange_durable = none;
  exchange_auto_delete = none;
}

module _ {A : Type 0} where
  abbrev pub or_else : Option A → Option A → Option A
  or_else (some a) other = some a
  or_else none other = other

  abbrev pub or_default : Option A → A → A
  or_default (some a) other = a
  or_default none other = other

-- `x or other` of a text that may be None: the empty one counts as None.
abbrev pub text_or : Option String → Option String → Option String
text_or none other = other
text_or (some s) other = elim (s == "") [ true ↦ other | false ↦ some s ]

-- NameTrio.binding
abbrev pub binding_of : Name → Option String
binding_of name = text_or name.own_binding name.queue

abbrev pub Headers : Type 0
Headers = Dict String String

-- A delivery tag, as the transport makes it.
abbrev pub Tag : Type 0
Tag = ℕ × ℕ

-- What the recv queue holds: a delivered message or the ChannelShutdownMessage.
pub data RecvItem (Body : Type 0) : Type 0 where
  delivered : Body → Headers → Tag → RecvItem Body
  shutdown : RecvItem Body

pub data ChannelError : Type 0 where
  channel_error channel_closed assertion attribute_error fsm_error blocked timed_out : ChannelError
  transport_error value_error : ChannelError

-- The methods of a transport that channels call, with the state of all that is behind it. The two
-- Booleans of a declaration are its `durable` and its `auto_delete`.
pub record Transport (Body W : Type 0) : Type 0 where
  pub declare_exchange_impl : String → Bool → Bool → W → Result ChannelError (Unit {0}) × W
  -- By the queue, durable, auto_delete, the messages' and the queue's own expiration.
  pub declare_queue_impl :
      String → Bool → Bool → Option ℕ → Option ℕ → W → Result ChannelError String × W
  pub delete_queue_impl : String → W → Result ChannelError (Unit {0}) × W
  pub bind_impl : String → String → String → W → Result ChannelError (Unit {0}) × W
  pub unbind_impl : String → String → String → W → Result ChannelError (Unit {0}) × W
  pub publish_impl :
      String → Option String → Body → Headers → Bool → W → Result ChannelError (Unit {0}) × W
  pub start_consume_impl : String → Bool → Bool → W → Result ChannelError ℕ × W
  pub stop_consume_impl : Option ℕ → W → Result ChannelError (Unit {0}) × W
  pub ack_impl : Tag → W → Result ChannelError (Unit {0}) × W
  pub reject_impl : Tag → Bool → W → Result ChannelError (Unit {0}) × W
  pub get_stats_impl : String → W → Result ChannelError (ℕ × ℕ) × W
  pub purge_impl : String → W → Result ChannelError (Unit {0}) × W
  pub qos_impl : ℕ → W → Result ChannelError (Unit {0}) × W
  pub close : W → Result ChannelError (Unit {0}) × W
  -- Whether `close` calls the close callbacks, with code 200, before it returns.
  pub closes_at_once : Bool
  pub is_amqp : Bool

pub data ChannelState : Type 0 where
  s_init s_active s_closed s_closing s_accepted : ChannelState

pub data ChannelInput : Type 0 where
  i_attach i_close i_enter_accept i_exit_accept : ChannelInput

-- The actions of the transitions.
pub data ChannelAct : Type 0 where
  on_close on_channel_close_again on_close_while_accepted : ChannelAct

abbrev pub state_code : ChannelState → ℕ
state_code s_init = 0
state_code s_active = 1
state_code s_closed = 2
state_code s_closing = 3
state_code s_accepted = 4

abbrev pub input_code : ChannelInput → ℕ
input_code i_attach = 0
input_code i_close = 1
input_code i_enter_accept = 2
input_code i_exit_accept = 3

pub state_code_iff : (a b : ChannelState) → ((state_code a == state_code b) ≡ true) ↔ (a ≡ b)
state_code_iff a b = ground arith

pub input_code_iff : (a b : ChannelInput) → ((input_code a == input_code b) ≡ true) ↔ (a ≡ b)
input_code_iff a b = ground arith

instance abbrev pub state_eq : Eq ChannelState
state_eq = record { equal = λ a b. state_code a == state_code b; agrees = state_code_iff }

instance abbrev pub input_eq : Eq ChannelInput
input_eq = record { equal = λ a b. input_code a == input_code b; agrees = input_code_iff }

-- The classes SendChannel (and PublisherChannel), RecvChannel (and BidirClientChannel), ListenChannel
-- (and its subclasses), AcceptedListenChannel.
pub data ChannelKind : Type 0 where
  send_channel recv_channel listen_channel accepted_channel : ChannelKind

pub record Channel (Body W : Type 0) : Type 0 where
  pub kind : ChannelKind
  pub current_state : Option ChannelState
  pub next_state : Option ChannelState
  -- `_transport is not None`, and the state of all that is behind it
  pub attached : Bool
  pub world : W
  -- `_close_event is not None`, and whether an event of `close` was set
  pub close_event : Bool
  pub event_set : Bool
  -- `_close_callback` and `_closed_error_callback` are set; the codes that the latter was called with
  pub close_callback : Bool
  pub closed_error_callback : Bool
  pub closed_errors : List ℕ
  pub exchange : Option String
  pub own_exchange_durable : Option Bool
  pub own_exchange_auto_delete : Option Bool
  pub send_name : Option Name
  pub recv_queue : List (RecvItem Body)
  pub recv_name : Option Name
  pub recv_binding : Option String
  pub own_queue_durable : Option Bool
  pub own_queue_auto_delete : Option Bool
  pub own_queue_msg_expiration : Option ℕ
  pub own_queue_expiration : Option ℕ
  pub consumer_exclusive : Bool
  pub consumer_no_ack : Bool
  pub consumer_tag : Option ℕ
  pub consuming : Bool
  pub setup_listener_called : Bool
