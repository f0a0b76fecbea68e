-- ===== src/Router/Consuming.antt =====
-- src/pyon/net/transport.py, class LocalRouter: publishing, consumers and deliveries. A callback that
-- raises is logged and ignored by the source, so a delivery is a value that the step returns.
use scioncc.Prelude.{
  ℕ, zero, suc, ◌+◌, String, Bool, true, false, Option, none, some, List, [], ◌∷◌, ◌++◌, ◌==◌,
  if◌then◌else◌, nat_eq, string_eq, pair_eq, Result, ok, err, length,
}
use scioncc.Prelude.Dict
use scioncc.Topic.{get_all_matches}
use scioncc.IdPool
use scioncc.Router.{
  Msg, Item, message, consumer_closed, Ctag, Dtag, Consumer, RouterError, unknown_exchange,
  unknown_queue, unknown_consumer, ctag_in_use, unknown_delivery, Router, Outcome,
}

-- What a callback gets: the method frame's fields, the headers and the body.
pub record Delivery (Body Props : Type 0) : Type 0 where
  pub consumer_tag : Ctag
  pub exchange : String
  pub routing_key : String
  pub delivery_tag : Dtag
  pub headers : Props
  pub body : Body

abbrev pub find_consumer : List Consumer → Ctag → Option Consumer
find_consumer [] ctag = none
find_consumer (c ∷ cs) ctag = if c.ctag == ctag then some c else find_consumer cs ctag

abbrev pub remove_consumer : List Consumer → Ctag → List Consumer
remove_consumer [] ctag = []
remove_consumer (c ∷ cs) ctag = if c.ctag == ctag then cs else c ∷ remove_consumer cs ctag

abbrev set_consumer : List Consumer → Consumer → List Consumer
set_consumer [] new = []
set_consumer (c ∷ cs) new = if c.ctag == new.ctag then new ∷ cs else c ∷ set_consumer cs new

module _ {Body Props : Type 0} where
  -- Reading a `defaultdict(list)`.
  abbrev pub consumers_of : Router Body Props → String → List Consumer
  consumers_of r q = elim (Dict.get r.consumers q) [ none ↦ [] | some cs ↦ cs ]

  abbrev pub set_object : Router Body Props → ℕ → List (Item Body Props) → Router Body Props
  set_object r o items = record r { objects = λ o'. if o' == o then items else r.objects o' }

  -- Queue.put on the object
  abbrev pub put_object : Router Body Props → ℕ → Item Body Props → Router Body Props
  put_object r o item = set_object r o (r.objects o ++ item ∷ [])

  -- `_route`: the loop over the matching queues.
  unfoldable pub deliver_all :
      Router Body Props → Msg Body Props → List String → Outcome Body Props (Unit {0})
  deliver_all r m [] = (ok tt, r)
  deliver_all r m (q ∷ qs) = elim (Dict.get r.queues q) [
    | none ↦ (err unknown_queue, r)
    | some o ↦ deliver_all (put_object r o (message m)) m qs
  ]

  unfoldable pub route : Router Body Props → Msg Body Props → Outcome Body Props (Unit {0})
  route r m = elim (Dict.get r.exchanges m.exchange) [
    | none ↦ (err unknown_exchange, r)
    | some trie ↦ deliver_all r m (get_all_matches trie m.routing_key)
  ]

  unfoldable pub publish : Router Body Props → Msg Body Props → Router Body Props
  publish r m = record r { incoming = r.incoming ++ m ∷ [] }

  abbrev record_error : Outcome Body Props (Unit {0}) → Router Body Props
  record_error (ok u, r) = r
  record_error (err e, r) = record r { errors = r.errors ++ e ∷ [] }

  -- One round of `_run_gl_msgs`; `none` while it waits for a message.
  unfoldable pub run_gl_msgs : Router Body Props → Option (Router Body Props)
  run_gl_msgs r = elim r.incoming [
    | [] ↦ none
    | m ∷ ms ↦ some (record_error (route (record r { incoming = ms }) m))
  ]

  unfoldable pub start_consume :
      (List ℕ → Option (ℕ × List ℕ))
      → Router Body Props
      → String
      → Bool
      → Bool
      → Outcome Body Props Ctag
  start_consume pop r queue no_ack exclusive = elim (Dict.get r.queues queue) [
    | none ↦ (err unknown_queue, r)
    | some o ↦
        let (new_ctag, pool) = IdPool.get_id pop (λ x. x + 1) r.ctag_pool in
        let new : Consumer = record {
          ctag = new_ctag;
          no_ack = no_ack;
          exclusive = exclusive;
          gqueue = o;
          cnt = 0;
          running = true;
        } in
        if Dict.has_key r.consumers_by_ctag new_ctag
        then (err ctag_in_use, record r { ctag_pool = pool })
        else (
          ok new_ctag,
          record r {
            ctag_pool = pool;
            consumers = Dict.put r.consumers queue (consumers_of r queue ++ new ∷ []);
            consumers_by_ctag = Dict.put r.consumers_by_ctag new_ctag queue;
          },
        )
  ]

  -- The notice to the consumer's queue, if the name still has one.
  abbrev pub notify_closed : Router Body Props → String → Router Body Props
  notify_closed r queue = elim (Dict.get r.queues queue) [
    | none ↦ r
    | some o ↦ put_object r o consumer_closed
  ]

  abbrev pub advance_consumer :
      Router Body Props
      → String
      → Consumer
      → List (Item Body Props)
      → Option (Option (Delivery Body Props) × Router Body Props)
  advance_consumer r queue c [] = none
  advance_consumer r queue c (consumer_closed ∷ rest) =
      let ended : Consumer = record c { running = false } in
      some (
        none,
        record (set_object r c.gqueue rest) {
          consumers = Dict.put r.consumers queue (set_consumer (consumers_of r queue) ended);
        },
      )
  advance_consumer r queue c (message m ∷ rest) =
      let dtag : Dtag = (c.ctag, c.cnt) in
      let counted : Consumer = record c { cnt = c.cnt + 1 } in
      some (
        some (record {
          consumer_tag = c.ctag;
          exchange = m.exchange;
          routing_key = m.routing_key;
          delivery_tag = dtag;
          headers = m.props;
          body = m.body;
        }),
        record (set_object r c.gqueue rest) {
          consumers = Dict.put r.consumers queue (set_consumer (consumers_of r queue) counted);
          unacked = Dict.put r.unacked dtag (c.ctag, queue, m);
        },
      )

  -- One round of `_run_consumer`; `none` while it waits, or when it does not run.
  unfoldable pub run_consumer :
      Router Body Props → String → Ctag → Option (Option (Delivery Body Props) × Router Body Props)
  run_consumer r queue ctag = elim (find_consumer (consumers_of r queue) ctag) [
    | none ↦ none
    | some c ↦ if c.running then advance_consumer r queue c (r.objects c.gqueue) else none
  ]

  -- So many rounds of a consumer's greenlet, unless it ends or waits before, with what it delivers.
  unfoldable pub serve :
      ℕ → Router Body Props → String → Ctag → List (Delivery Body Props) × Router Body Props
  unfolding run_consumer
  serve zero r queue ctag = ([], r)
  serve (suc n) r queue ctag = elim (run_consumer r queue ctag) [
    | none ↦ ([], r)
    | some (none, s) ↦ serve n s queue ctag
    | some (some d, s) ↦ (let (ds, last) = serve n s queue ctag in (d ∷ ds, last))
  ]

  abbrev pub without_consumer : Router Body Props → String → Ctag → Router Body Props
  without_consumer r queue ctag = record r {
    consumers = Dict.put r.consumers queue (remove_consumer (consumers_of r queue) ctag);
  }

  -- While it is joined, the greenlet delivers what its queue holds up to the notice, or all of it where
  -- the notice went to another queue; then it is killed. The join of 5 seconds is taken to be enough.
  unfoldable pub drop_consumer :
      Router Body Props → String → Ctag → List (Delivery Body Props) × Router Body Props
  unfolding serve
  drop_consumer r queue ctag = elim (find_consumer (consumers_of r queue) ctag) [
    | none ↦ ([], r)
    | some c ↦
        let told = notify_closed r queue in
        let (ds, served) = serve (length (told.objects c.gqueue)) told queue ctag in
        (ds, without_consumer served queue ctag)
  ]

  -- What is delivered while it runs is returned.
  unfoldable pub stop_consume :
      Router Body Props → Ctag → Outcome Body Props (List (Delivery Body Props))
  unfolding drop_consumer
  stop_consume r ctag = elim (Dict.get r.consumers_by_ctag ctag) [
    | none ↦ (err unknown_consumer, r)
    | some queue ↦
        let (ds, dropped) =
          drop_consumer (record r { consumers_by_ctag = Dict.remove r.consumers_by_ctag ctag })
            queue ctag in
        (ok ds, record dropped { ctag_pool = IdPool.release_id dropped.ctag_pool ctag })
  ]

  unfoldable pub ack : Router Body Props → Dtag → Outcome Body Props (Unit {0})
  ack r delivery_tag =
      if Dict.has_key r.unacked delivery_tag
      then (ok tt, record r { unacked = Dict.remove r.unacked delivery_tag })
      else (err unknown_delivery, r)

  -- A message is taken out of the unacknowledged ones before its queue is looked up.
  unfoldable pub reject : Router Body Props → Dtag → Bool → Outcome Body Props (Unit {0})
  reject r delivery_tag requeue = elim (Dict.get r.unacked delivery_tag) [
    | none ↦ (err unknown_delivery, r)
    | some (ctag, queue, m) ↦
        let popped : Router Body Props = record r {
          unacked = Dict.remove r.unacked delivery_tag;
        } in
        if requeue
        then elim (Dict.get r.queues queue) [
          | none ↦ (err unknown_queue, popped)
          | some o ↦ (ok tt, put_object popped o (message m))
        ]
        else (ok tt, popped)
  ]

  unfoldable pub get_stats : Router Body Props → String → Result RouterError (ℕ × ℕ)
  get_stats r queue = elim (Dict.get r.queues queue) [
    | none ↦ err unknown_queue
    | some o ↦ ok (length (r.objects o), length (consumers_of r queue))
  ]

  unfoldable pub purge : Router Body Props → String → Outcome Body Props (Unit {0})
  purge r queue = elim (Dict.get r.queues queue) [
    | none ↦ (err unknown_queue, r)
    | some o ↦ (ok tt, set_object r o [])
  ]
