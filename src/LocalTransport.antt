-- ===== src/LocalTransport.antt =====
-- src/pyon/net/transport.py, class LocalTransport: the transport of channels over the in-memory broker.
-- What is behind it is the router. Its `close` calls the close callbacks before it returns. Of the
-- methods' results, the router's errors are one error here.
pub mod Sending
mod Tests
use scioncc.Prelude.{
  ℕ, String, Bool, true, false, Option, none, some, List, [], ◌∷◌, ◌++◌, Result, ok, err,
}
use scioncc.Channel.{Headers, Tag, ChannelError, transport_error, blocked, Transport}
use scioncc.Router
use scioncc.Router.{Router, Msg, RouterError, no_routing_key}
use scioncc.Router.Consuming

module _ {Body A : Type 0} where
  -- A call that returns or raises, and a result without a state.
  abbrev raised :
      Result RouterError A × Router Body Headers → Result ChannelError A × Router Body Headers
  raised (ok a, r) = (ok a, r)
  raised (err e, r) = (err transport_error, r)

  abbrev read :
      Result RouterError A → Router Body Headers → Result ChannelError A × Router Body Headers
  read a r = raised (a, r)

module _ {Body : Type 0} where
  -- A message without a routing key is refused by the greenlet that routes it, which records the
  -- error; here it is recorded at once.
  unfoldable pub publish_impl :
      String
      → Option String
      → Body
      → Headers
      → Bool
      → Router Body Headers
      → Result ChannelError (Unit {0}) × Router Body Headers
  publish_impl exchange none body properties durable r =
      (ok tt, record r { errors = r.errors ++ no_routing_key ∷ [] })
  publish_impl exchange (some routing_key) body properties durable r = (
    ok tt,
    Consuming.publish r (record {
      exchange = exchange;
      routing_key = routing_key;
      body = body;
      props = properties;
    }),
  )

  -- The names that uuid4 gives are `proposals`; where they run out, the loop goes on.
  unfoldable pub declare_queue_impl :
      List String → String → Router Body Headers → Result ChannelError String × Router Body Headers
  declare_queue_impl proposals queue r = elim (Router.declare_queue r (some queue) proposals) [
    | none ↦ (err blocked, r)
    | some p ↦ (ok p.0, p.1)
  ]

  -- What the consumer delivers while it is stopped goes to the channel's callback.
  abbrev stopped :
      Result RouterError (List (Consuming.Delivery Body Headers)) × Router Body Headers
      → Result ChannelError (Unit {0}) × Router Body Headers
  stopped (ok ds, r) = (ok tt, r)
  stopped (err e, r) = (err transport_error, r)

  unfoldable pub stop_consume_impl :
      Option ℕ → Router Body Headers → Result ChannelError (Unit {0}) × Router Body Headers
  stop_consume_impl none r = (err transport_error, r)
  stop_consume_impl (some consumer_tag) r = stopped (Consuming.stop_consume r consumer_tag)

  unfoldable pub local_transport :
      (List ℕ → Option (ℕ × List ℕ)) → List String → Transport Body (Router Body Headers)
  unfolding publish_impl declare_queue_impl stop_consume_impl
  local_transport pop proposals = record {
    declare_exchange_impl =
        λ exchange durable auto_delete r. (ok tt, Router.declare_exchange r exchange);
    declare_queue_impl =
        λ queue durable auto_delete msg_expiration expiration. declare_queue_impl proposals queue;
    delete_queue_impl = λ queue r. (ok tt, Router.delete_queue r queue);
    bind_impl = λ exchange queue binding r. raised (Router.bind r exchange queue binding);
    unbind_impl = λ exchange queue binding r. raised (Router.unbind r exchange queue binding);
    publish_impl = publish_impl;
    start_consume_impl =
        λ queue no_ack exclusive r. raised (Consuming.start_consume pop r queue no_ack exclusive);
    stop_consume_impl = stop_consume_impl;
    ack_impl = λ tag r. raised (Consuming.ack r tag);
    reject_impl = λ tag requeue r. raised (Consuming.reject r tag requeue);
    get_stats_impl = λ queue r. read (Consuming.get_stats r queue) r;
    purge_impl = λ queue r. raised (Consuming.purge r queue);
    qos_impl = λ prefetch_count r. (ok tt, r);
    close = λ r. (ok tt, r);
    closes_at_once = true;
    is_amqp = false;
  }
