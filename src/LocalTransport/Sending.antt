-- ===== src/LocalTransport/Sending.antt =====
-- src/pyon/net/channel.py over the LocalTransport of src/pyon/net/transport.py: a message sent on a
-- channel, up to the queues that the router's greenlet puts it into.
use scioncc.Prelude.{
  ℕ, ◌≡◌, ap, ◌∙◌, String, true, Option, some, List, [], ◌∷◌, ◌++◌, ok, string_eq, arith,
}
use scioncc.Prelude.Dict
use scioncc.Topic.{TopicTrie}
use scioncc.Channel.{Name, binding_of, Headers, Transport, Channel}
use scioncc.Channel.Base.{send, send_to}
use scioncc.Router.{Router, Msg, message}
use scioncc.Router.Consuming.{publish, route, run_gl_msgs}
use scioncc.Router.Bound.{IsValid}
use scioncc.Router.Deliver.{HasMatch, route_delivers}
use scioncc.LocalTransport.{local_transport, publish_impl}

module _ {Body : Type 0} where
  one_round :
      (r : Router Body Headers) (m : Msg Body Headers)
      → r.incoming ≡ []
      → (route (record r { incoming = [] }) m).0 ≡ ok tt
      → run_gl_msgs (publish r m) ≡ some (route (record r { incoming = [] }) m).1
  unfolding publish run_gl_msgs
  one_round r m idle routed = ground (arith, idle, routed)

module _ {Body : Type 0} (pop : List ℕ → Option (ℕ × List ℕ)) (proposals : List String) where
  abbrev pub transport : Transport Body (Router Body Headers)
  transport = local_transport pop proposals

  abbrev pub sent : Name → String → Body → Headers → Msg Body Headers
  sent name key body headers = record {
    exchange = name.exchange;
    routing_key = key;
    body = body;
    props = headers;
  }

  send-publish :
      (c : Channel Body (Router Body Headers)) (name : Name) (key : String) (body : Body)
      (headers : Headers)
      → c.attached ≡ true
      → c.send_name ≡ some name
      → binding_of name ≡ some key
      → send transport body headers c
        ≡ (ok tt, record c { world = publish c.world (sent name key body headers) })
  unfolding send send_to local_transport publish_impl
  send-publish c name key body headers a n k = ground (arith, a, n, k)

  -- On an attached channel over the local transport, connected to a name with a binding, where the
  -- exchange is declared and the router is in a valid state with nothing waiting: `send` returns, and
  -- after one round of the router's greenlet a queue holds the message, with the name's binding as its
  -- routing key, exactly if a binding of the queue on that exchange matches; nothing waits any more.
  pub send-run_gl_msgs :
      (c : Channel Body (Router Body Headers)) (name : Name) (key : String) (body : Body)
      (headers : Headers) (trie : TopicTrie String)
      → c.attached ≡ true
      → c.send_name ≡ some name
      → binding_of name ≡ some key
      → IsValid c.world
      → Dict.get c.world.exchanges name.exchange ≡ some trie
      → c.world.incoming ≡ []
      → ((send transport body headers c).0 ≡ ok tt)
        × (r : Router Body Headers) × (run_gl_msgs (send transport body headers c).1.world ≡ some r)
        × (r.queues ≡ c.world.queues)
        × ((q : String) (o : ℕ)
            → Dict.get c.world.queues q ≡ some o
            → (HasMatch c.world name.exchange key q
                → r.objects o ≡ c.world.objects o ++ message (sent name key body headers) ∷ [])
              × (¬ HasMatch c.world name.exchange key q → r.objects o ≡ c.world.objects o))
  send-run_gl_msgs c name key body headers trie a n k v declared idle =
      let m : Msg Body Headers = sent name key body headers in
      let r₀ : Router Body Headers = record c.world { incoming = [] } in
      let v₀ : IsValid r₀ = record {
        distinct = v.distinct;
        bound = v.bound;
        own_object = v.own_object;
        old_object = v.old_object;
      } in
      let (routed, objects, exchanges, queues, bindings) = route_delivers r₀ m trie v₀ declared in
      let published = send-publish c name key body headers a n k in
      (
        ap (λ x. x.0) published,
        (route r₀ m).1,
        ap (λ x. run_gl_msgs x.1.world) published ∙ one_round c.world m idle routed,
        queues,
        objects,
      )
