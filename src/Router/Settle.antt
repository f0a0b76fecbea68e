-- ===== src/Router/Settle.antt =====
-- src/pyon/net/transport.py, class LocalRouter: `ack` and `reject` of what `_run_consumer` delivers.
use scioncc.Prelude.{
  ℕ, String, ◌≡◌, Bool, true, false, some, List, [], ◌∷◌, ◌++◌, nat_eq, string_eq, pair_eq, ok, err,
  arith, eq_refl, Option-cases, inl, inr,
}
use scioncc.Prelude.Dict
use scioncc.Prelude.Dict.{get-put, get-remove}
use scioncc.Router.{
  Msg, Item, message, consumer_closed, Ctag, Dtag, Consumer, unknown_delivery, Router,
}
use scioncc.Router.Consuming.{
  Delivery, consumers_of, find_consumer, advance_consumer, run_consumer, ack, reject,
}

module _ {Body Props : Type 0} where
  -- The message that a delivery carries.
  abbrev pub carried : Delivery Body Props → Msg Body Props
  carried d = record {
    exchange = d.exchange;
    routing_key = d.routing_key;
    body = d.body;
    props = d.headers;
  }

  advance_consumer-unacked :
      (r s : Router Body Props) (q : String) (c : Consumer) (items : List (Item Body Props))
      (d : Delivery Body Props)
      → advance_consumer r q c items ≡ some (some d, s)
      → Dict.get s.unacked d.delivery_tag ≡ some (c.ctag, q, carried d)
  advance_consumer-unacked r s q c [] d h = cc
  advance_consumer-unacked r s q c (consumer_closed ∷ rest) d h = ground arith
  advance_consumer-unacked r s q c (message m ∷ rest) d h = ground (
    arith,
    get-put r.unacked (c.ctag, c.cnt) (c.ctag, c.cnt) (c.ctag, q, m),
    eq_refl {A = Dtag} (c.ctag, c.cnt),
  )

  run_consumer-unacked :
      (r s : Router Body Props) (q : String) (ctag : Ctag) (d : Delivery Body Props)
      → run_consumer r q ctag ≡ some (some d, s)
      → (tag : Ctag) × (Dict.get s.unacked d.delivery_tag ≡ some (tag, q, carried d))
  unfolding run_consumer
  run_consumer-unacked r s q ctag d h =
      elim (Option-cases (find_consumer (consumers_of r q) ctag)) [
        | inl missing ↦ absurd (ground arith)
        | inr (c, at) ↦
            (c.ctag, ground (arith, at, advance_consumer-unacked r s q c (r.objects c.gqueue) d))
      ]

  -- Whatever a consumer's round delivers can be settled, and only once: it is acknowledged or
  -- rejected without an error, after which its tag is unknown. Rejected for another delivery, the
  -- message stands behind all that its queue holds, if the queue is still declared.
  pub run_consumer_settled :
      (r s : Router Body Props) (q : String) (ctag : Ctag) (d : Delivery Body Props)
      → run_consumer r q ctag ≡ some (some d, s)
      → ((ack s d.delivery_tag).0 ≡ ok tt)
        × ((ack (ack s d.delivery_tag).1 d.delivery_tag).0 ≡ err unknown_delivery)
        × ((reject s d.delivery_tag false).0 ≡ ok tt)
        × ((again : Bool)
            → (ack (reject s d.delivery_tag again).1 d.delivery_tag).0 ≡ err unknown_delivery)
        × ((o : ℕ)
            → Dict.get s.queues q ≡ some o
            → ((reject s d.delivery_tag true).0 ≡ ok tt)
              × ((reject s d.delivery_tag true).1.objects o
                  ≡ s.objects o ++ message (carried d) ∷ []))
  unfolding ack reject
  run_consumer_settled r s q ctag d h =
      let (tag, held) = run_consumer-unacked r s q ctag d h in
      let gone = get-remove s.unacked d.delivery_tag d.delivery_tag in
      let same = eq_refl d.delivery_tag in
      (
        ground (arith, held),
        ground (arith, held, gone, same),
        ground (arith, held),
        (λ again. ground (arith, held, gone, same)),
        λ o at. (ground (arith, held, at), ground (arith, held, at, eq_refl o)),
      )
