-- ===== src/Router/Topology.antt =====
-- src/pyon/net/transport.py, class LocalRouter: the methods and rounds that leave exchanges, queues and
-- bindings as they are.
use scioncc.Prelude.{
  ℕ, zero, suc, length, nat_eq, none, ◌∙◌, String, ◌≡◌, refl, Bool, Option, some, List, [], ◌∷◌,
  Option-cases, inl, inr, string_eq, arith,
}
use scioncc.Prelude.Dict
use scioncc.Router.{Msg, message, Ctag, Dtag, Router}
use scioncc.Router.Consuming.{
  Delivery, put_object, deliver_all, route, run_gl_msgs, start_consume, stop_consume, serve,
  drop_consumer, notify_closed, find_consumer, consumers_of, run_consumer, ack, reject, purge,
}
use scioncc.Router.Bound.{IsValid}

module _ {Body Props : Type 0} where
  -- The part of the state that the invariant is about is the same.
  pub record SameTopology (r s : Router Body Props) : Type 0 where
    pub exchanges : s.exchanges ≡ r.exchanges
    pub queues : s.queues ≡ r.queues
    pub bindings : s.bindings_by_queue ≡ r.bindings_by_queue
    pub next : s.next_object ≡ r.next_object

  pub SameTopology-IsValid : {r s : Router Body Props} → SameTopology r s → IsValid r → IsValid s
  SameTopology-IsValid same v = record {
    distinct = rw same.exchanges v.distinct;
    bound = λ ex path q. rw (same.exchanges, same.queues, same.bindings) (v.bound ex path q);
    own_object = λ q p o. rw same.queues (v.own_object q p o);
    old_object = λ q o. rw (same.queues, same.next) (v.old_object q o);
  }

  SameTopology-refl : (r : Router Body Props) → SameTopology r r
  SameTopology-refl r = record { exchanges = refl; queues = refl; bindings = refl; next = refl }

  SameTopology-trans :
      {r s u : Router Body Props} → SameTopology r s → SameTopology s u → SameTopology r u
  SameTopology-trans f g = record {
    exchanges = g.exchanges ∙ f.exchanges;
    queues = g.queues ∙ f.queues;
    bindings = g.bindings ∙ f.bindings;
    next = g.next ∙ f.next;
  }

  pub deliver_all-SameTopology :
      (m : Msg Body Props) (qs : List String) (r : Router Body Props)
      → SameTopology r (deliver_all r m qs).1
  unfolding deliver_all
  deliver_all-SameTopology m [] r = SameTopology-refl r
  deliver_all-SameTopology m (q ∷ qs) r = elim (Option-cases (Dict.get r.queues q)) [
    | inl missing ↦ rw (missing, deliver_all) (SameTopology-refl r)
    | inr (o, at) ↦
        let same = deliver_all-SameTopology m qs (put_object r o (message m)) in
        rw (at, deliver_all)
          (record {
            exchanges = same.exchanges;
            queues = same.queues;
            bindings = same.bindings;
            next = same.next;
          })
  ]

  pub route-SameTopology :
      (m : Msg Body Props) (r : Router Body Props) → SameTopology r (route r m).1
  unfolding route
  route-SameTopology m r = elim (Option-cases (Dict.get r.exchanges m.exchange)) [
    | inl missing ↦ rw (missing, route) (SameTopology-refl r)
    | inr (trie, at) ↦ rw (at, route) (deliver_all-SameTopology m _ r)
  ]

  run_gl_msgs_on :
      (r s : Router Body Props) (waiting : List (Msg Body Props))
      → r.incoming ≡ waiting
      → run_gl_msgs r ≡ some s
      → SameTopology r s
  unfolding run_gl_msgs
  run_gl_msgs_on r s [] e h = ground arith
  run_gl_msgs_on r s (m ∷ ms) e h =
      ground (arith, route-SameTopology m (record r { incoming = ms }))

  pub run_gl_msgs-SameTopology :
      (r s : Router Body Props) → run_gl_msgs r ≡ some s → SameTopology r s
  run_gl_msgs-SameTopology r s h = run_gl_msgs_on r s r.incoming refl h

  pub start_consume-SameTopology :
      (pop : List ℕ → Option (ℕ × List ℕ)) (r : Router Body Props) (q : String)
      (no_ack exclusive : Bool)
      → SameTopology r (start_consume pop r q no_ack exclusive).1
  unfolding start_consume
  start_consume-SameTopology pop r q no_ack exclusive = ground arith

  pub ack-SameTopology : (r : Router Body Props) (dtag : Dtag) → SameTopology r (ack r dtag).1
  unfolding ack
  ack-SameTopology r dtag = ground arith

  pub reject-SameTopology :
      (r : Router Body Props) (dtag : Dtag) (requeue : Bool)
      → SameTopology r (reject r dtag requeue).1
  unfolding reject
  reject-SameTopology r dtag requeue = ground arith

  pub purge-SameTopology : (r : Router Body Props) (q : String) → SameTopology r (purge r q).1
  unfolding purge
  purge-SameTopology r q = ground arith

  pub run_consumer-SameTopology :
      (r s : Router Body Props) (q : String) (ctag : Ctag) (d : Option (Delivery Body Props))
      → run_consumer r q ctag ≡ some (d, s)
      → SameTopology r s
  unfolding run_consumer
  run_consumer-SameTopology r s q ctag d h = ground arith

  -- A consumer's rounds, as many as there are.
  pub serve-SameTopology :
      (n : ℕ) (r : Router Body Props) (q : String) (ctag : Ctag)
      → SameTopology r (serve n r q ctag).1
  unfolding serve
  serve-SameTopology zero r q ctag = SameTopology-refl r
  serve-SameTopology (suc n) r q ctag = elim (Option-cases (run_consumer r q ctag)) [
    | inl waits ↦ rw (waits, serve) (SameTopology-refl r)
    | inr ((none, s), e) ↦
        rw (e, serve)
          (SameTopology-trans (run_consumer-SameTopology r s q ctag none e)
            (serve-SameTopology n s q ctag))
    | inr ((some d, s), e) ↦
        rw (e, serve)
          (SameTopology-trans (run_consumer-SameTopology r s q ctag (some d) e)
            (serve-SameTopology n s q ctag))
  ]

  pub notify_closed-SameTopology :
      (r : Router Body Props) (q : String) → SameTopology r (notify_closed r q)
  notify_closed-SameTopology r q = ground arith

  pub drop_consumer-SameTopology :
      (r : Router Body Props) (q : String) (ctag : Ctag) → SameTopology r (drop_consumer r q ctag).1
  unfolding drop_consumer
  drop_consumer-SameTopology r q ctag =
      elim (Option-cases (find_consumer (consumers_of r q) ctag)) [
        | inl e ↦ rw (e, drop_consumer) (SameTopology-refl r)
        | inr (c, e) ↦
            let told = notify_closed r q in
            let all =
              SameTopology-trans (notify_closed-SameTopology r q)
                (serve-SameTopology (length (told.objects c.gqueue)) told q ctag) in
            rw (e, drop_consumer)
              (record {
                exchanges = all.exchanges;
                queues = all.queues;
                bindings = all.bindings;
                next = all.next;
              })
      ]

  pub stop_consume-SameTopology :
      (r : Router Body Props) (ctag : Ctag) → SameTopology r (stop_consume r ctag).1
  unfolding stop_consume
  stop_consume-SameTopology r ctag = elim (Option-cases (Dict.get r.consumers_by_ctag ctag)) [
    | inl e ↦ rw (e, stop_consume) (SameTopology-refl r)
    | inr (q, e) ↦
        let r' = record r { consumers_by_ctag = Dict.remove r.consumers_by_ctag ctag } in
        let same = drop_consumer-SameTopology r' q ctag in
        rw (e, stop_consume)
          (record {
            exchanges = same.exchanges;
            queues = same.queues;
            bindings = same.bindings;
            next = same.next;
          })
  ]
