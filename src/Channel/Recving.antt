-- ===== src/Channel/Recving.antt =====
-- src/pyon/net/channel.py, `recv`: the order in which messages are returned, and what is left of them
-- by a channel that is closed.
use scioncc.Prelude.{
  ◌≡◌, refl, ap, ◌∙◌, true, false, none, some, List, [], ◌∷◌, ◌++◌, map, ok, err, ◌>>=◌, pure,
  and_then, length, arith,
}
use scioncc.Channel.{RecvItem, shutdown, channel_closed, blocked, Headers, Tag, Channel}
use scioncc.Channel.Recv.{recv, recv_from, should_discard}
use scioncc.Channel.Listen.{recv_n, item_of}

module _ {Body : Type 0} where
  -- A channel that discards passes over messages up to a shutdown.
  recv_from_shutdown :
      (ms : List (Body × Headers × Tag)) (items : List (RecvItem Body))
      → recv_from true (map item_of ms ++ shutdown ∷ items) ≡ (some none, items)
  unfolding recv_from
  recv_from_shutdown [] items = refl
  recv_from_shutdown ((body, headers, tag) ∷ ms) items = recv_from_shutdown ms items

  recv_from_nothing :
      (ms : List (Body × Headers × Tag)) → recv_from true (map item_of ms) ≡ (none, [])
  unfolding recv_from
  recv_from_nothing [] = refl
  recv_from_nothing ((body, headers, tag) ∷ ms) = recv_from_nothing ms

module _ {Body W : Type 0} where
  recv_first :
      (c : Channel Body W) (m : Body × Headers × Tag) (items : List (RecvItem Body))
      → should_discard c ≡ false
      → recv (record c { recv_queue = item_of m ∷ items }) ≡ (ok m, record c { recv_queue = items })
  unfolding recv recv_from should_discard
  recv_first c (body, headers, tag) items taking = ground (arith, taking)

  -- A channel that does not discard returns the messages in the order in which they were delivered,
  -- and leaves what is behind them.
  pub recv_n-append :
      (c : Channel Body W) (ms : List (Body × Headers × Tag)) (items : List (RecvItem Body))
      → should_discard c ≡ false
      → recv_n (length ms) (record c { recv_queue = map item_of ms ++ items })
        ≡ (ok ms, record c { recv_queue = items })
  unfolding recv_n should_discard
  recv_n-append c [] items taking = refl
  recv_n-append c (m ∷ ms) items taking =
      ap (λ r. and_then r (λ x. recv_n (length ms) >>= λ xs. pure (x ∷ xs)))
        (recv_first c m (map item_of ms ++ items) taking)
      ∙ ap (λ r. and_then r (λ xs. pure (m ∷ xs))) (recv_n-append c ms items taking)

  -- A channel that discards, with one shutdown behind its messages: the first `recv` raises that the
  -- channel is closed, and every message is lost; the next waits for ever.
  pub recv-recv :
      (c : Channel Body W) (ms ns : List (Body × Headers × Tag))
      → should_discard c ≡ true
      → c.recv_queue ≡ map item_of ms ++ shutdown ∷ map item_of ns
      → ((recv c).0 ≡ err channel_closed)
        × ((recv (recv c).1).0 ≡ err blocked)
        × ((recv (recv c).1).1.recv_queue ≡ [])
  unfolding recv should_discard
  recv-recv c ms ns closing q =
      ground (arith, recv_from_shutdown ms (map item_of ns), recv_from_nothing ns)
