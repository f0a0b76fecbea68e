-- ===== src/Channel/Accepting.antt =====
-- src/pyon/net/channel.py, `accept`: what it returns when enough messages are delivered while it waits.
use mathlib.Core.Path.{subst}
use scioncc.Prelude.{
  ℕ, suc, ◌≡◌, refl, sym, ap, ◌∙◌, Bool, true, false, not, ◌&&◌, Bool-cases, inl, inr, Option, none,
  some, List, [], ◌∷◌, ◌++◌, map, if◌then◌else◌, length, length-append, ok, err, ◌>>◌, when, pure,
  modify, and_then, Result, nat_eq, arith,
}
use scioncc.Fsm
use scioncc.Fsm.{process, get_transition, take_transition, add_transition}
use scioncc.Prelude.Dict
use scioncc.Channel.{
  Name, timed_out, or_default, RecvItem, Headers, Tag, Transport, s_active, s_accepted,
  ChannelError, i_enter_accept, listen_channel, state_eq, Channel,
}
use scioncc.Channel.Base.{Method, process_input, fsm_of, tables, listen_fsm, base_fsm}
use scioncc.Channel.Recv.{start_consume, should_discard}
use scioncc.Channel.Listen.{
  Accepted, accepted_of, create_accepted, accept, begin_accept, end_accept, is_fired, take_messages,
  recv_n, item_of, keeps_consuming,
}
use scioncc.Channel.Lifecycle.{at, stopped_world, stop_consume_willing}
use scioncc.Channel.Recving.{recv_n-append}

length-items :
    {Body : Type 0} (ms : List (Body × Headers × Tag)) → length (map item_of ms) ≡ length ms
length-items [] = refl
length-items (m ∷ ms) = ap suc (length-items ms)

module _ {Body W : Type 0} where
  -- What is behind the transport once it is tuned for `n` messages, where the channel does that, and
  -- once the consumer is started then.
  abbrev pub tuned_world : Transport Body W → ℕ → Channel Body W → W
  tuned_world T n c = if keeps_consuming T c then c.world else (T.qos_impl n c.world).1

  abbrev pub begun_consume :
      Transport Body W → ℕ → Name → Channel Body W → Result ChannelError ℕ × W
  begun_consume T n name c =
      T.start_consume_impl (or_default name.queue "") c.consumer_no_ack c.consumer_exclusive
        (tuned_world T n c)

  -- The transport tunes, starts and stops the consumer of this channel without an exception.
  pub record IsServing (T : Transport Body W) (n : ℕ) (name : Name) (c : Channel Body W)
      : Type 0 where
    pub tunes : keeps_consuming T c ≡ false → (T.qos_impl n c.world).0 ≡ ok tt
    pub tag : ℕ
    pub starts : (begun_consume T n name c).0 ≡ ok tag
    pub stops : (T.stop_consume_impl (some tag) (begun_consume T n name c).1).0 ≡ ok tt

  abbrev touched : Channel Body W → W → Option ℕ → Bool → Channel Body W
  touched c w t b = record c { world = w; consumer_tag = t; consuming = b }

module _ {Body W : Type 0} (T : Transport Body W) where
  start_consume_serving :
      (c : Channel Body W) (name : Name) (tag : ℕ)
      → (T.start_consume_impl
          (or_default name.queue "")
          c.consumer_no_ack
          c.consumer_exclusive
          c.world).0
        ≡ ok tag
      → c.attached ≡ true
      → c.consuming ≡ false
      → c.recv_name ≡ some name
      → start_consume T c ≡ (
        ok tt,
        touched c
            (T.start_consume_impl
              (or_default name.queue "")
              c.consumer_no_ack
              c.consumer_exclusive
              c.world).1
            (some tag)
            true,
      )
  unfolding start_consume
  start_consume_serving c name tag h a f r = ground (arith, h)

  begin_accept_serving :
      (c : Channel Body W) (n : ℕ) (name : Name) (t : IsServing T n name c)
      → c.attached ≡ true
      → c.consuming ≡ false
      → c.recv_name ≡ some name
      → begin_accept T n c ≡ (ok tt, touched c (begun_consume T n name c).1 (some t.tag) true)
  unfolding begin_accept
  begin_accept_serving c n name t a f r = elim (Bool-cases (keeps_consuming T c)) [
    | inl k ↦
        (let e = start_consume_serving c name t.tag (ground (arith, t.starts, k)) a f r in
          ground (arith, k, e))
    | inr k ↦
        (let w' = (T.qos_impl n c.world).1 in
          let e =
            start_consume_serving (record c { world = w' }) name t.tag (ground (arith, t.starts, k))
              a f r in
          ground (arith, k, e, t.tunes k))
  ]

  -- The state after the wait has begun, for a channel that consumes or not; a consumer that was started
  -- for it can be stopped.
  when_begin :
      (c : Channel Body W) (n : ℕ) (name : Name)
      → (c.consuming ≡ false → IsServing T n name c)
      → c.attached ≡ true
      → c.recv_name ≡ some name
      → should_discard c ≡ false
      → (w : W) × (tag : Option ℕ) × (when
            (not (should_discard c) && not c.consuming)
            (begin_accept T n)
            c
          ≡ (ok tt, touched c w tag true))
        × (c.consuming ≡ false → (T.stop_consume_impl tag w).0 ≡ ok tt)
  when_begin c n name t a r s = elim (Bool-cases c.consuming) [
    | inl k ↦ (c.world, c.consumer_tag, ground (arith, k, s), λ h. ground (arith, k, h))
    | inr k ↦
        (let e = begin_accept_serving c n name (t k) a k r in
          ((begun_consume T n name c).1, some (t k).tag, ground (arith, e, k, s), λ h. (t k).stops))
  ]

  end_accept_serving :
      (was : Bool) (c : Channel Body W)
      → (was ≡ false → (T.stop_consume_impl c.consumer_tag c.world).0 ≡ ok tt)
      → c.attached ≡ true
      → (w : W) × (b : Bool) × (end_accept T was c ≡ (ok tt, touched c w c.consumer_tag b))
  unfolding end_accept
  end_accept_serving was c stops a = elim (Bool-cases (not was && not (keeps_consuming T c))) [
    | inl k ↦
        (let e = stop_consume_willing T c (λ h. stops (ground (arith, k))) a in
          (stopped_world T c, false, ground (arith, k, e)))
    | inr k ↦ (c.world, c.consuming, ground (arith, k))
  ]

  enter_accept :
      (c : Channel Body W)
      → process_input T i_enter_accept (at c listen_channel s_active)
        ≡ (ok tt, record (at c listen_channel s_accepted) { next_state = none })
  unfolding process_input process get_transition take_transition fsm_of tables base_fsm listen_fsm
      add_transition Fsm.init Dict.get Dict.put
  enter_accept c = refl

  take_messages_all :
      (c : Channel Body W) (ms : List (Body × Headers × Tag)) (items : List (RecvItem Body))
      → c.recv_queue ≡ map item_of ms ++ items
      → let left = record (at c listen_channel s_active) { recv_queue = items } in
        take_messages T create_accepted (length ms) (at c listen_channel s_active) ≡ (
          ok (accepted_of left ms),
          record (at c listen_channel s_accepted) { recv_queue = items; next_state = none },
        )
  unfolding take_messages should_discard accepted_of
  take_messages_all c ms items q =
      let start : Channel Body W = at c listen_channel s_active in
      let left : Channel Body W = record start { recv_queue = items } in
      let got : recv_n (length ms) start ≡ (ok ms, left) =
        subst (λ x. recv_n (length ms) (record start { recv_queue = x }) ≡ (ok ms, left)) (sym q)
          (recv_n-append start ms items refl) in
      let ch : Accepted Body W = accepted_of left ms in
      ap
        (λ r. and_then r (λ xs c'. (process_input T i_enter_accept >> pure (accepted_of c' xs)) c'))
        got
      ∙ ap (λ r. and_then r (λ _. pure ch)) (enter_accept left)

  -- The wait is over once the messages are there.
  is_fired-append :
      (c : Channel Body W) (ms : List (Body × Headers × Tag)) (items : List (RecvItem Body))
      → c.recv_queue ≡ map item_of ms ++ items
      → is_fired (length ms) c ≡ true
  unfolding is_fired
  is_fired-append c ms items q =
      ground (arith, q, length-append (map item_of ms) items, length-items ms)

  -- An active listening channel that is consuming already, or whose transport tunes, starts and stops
  -- its consumer without an exception: where what is delivered while `accept` waits makes its queue
  -- begin with as many messages as asked for, these are returned, in order, in a new channel on the
  -- same transport. The listening channel is ACCEPTED and keeps the rest.
  pub accept-accepted_of :
      (c : Channel Body W) (name : Name) (items rest : List (RecvItem Body))
      (ms : List (Body × Headers × Tag))
      → (c.consuming ≡ false → IsServing T (length ms) name (at c listen_channel s_active))
      → c.attached ≡ true
      → c.recv_name ≡ some name
      → c.recv_queue ++ items ≡ map item_of ms ++ rest
      → (d : Channel Body W) × (accept T create_accepted
            (λ c'. record c' { recv_queue = c'.recv_queue ++ items })
            (length ms)
            (at c listen_channel s_active)
          ≡ (ok (accepted_of d ms), d))
        × (d.current_state ≡ some s_accepted)
        × (d.recv_queue ≡ rest)
        × (d.attached ≡ true)
  unfolding accept should_discard accepted_of
  accept-accepted_of c name items rest ms t a r q =
      let n : ℕ = length ms in
      let deliver : Channel Body W → Channel Body W =
        λ c'. record c' { recv_queue = c'.recv_queue ++ items } in
      let start : Channel Body W = at c listen_channel s_active in
      let (w, tag, begun, stops) = when_begin start n name t a r refl in
      let waited : Channel Body W = deliver (touched start w tag true) in
      let (w', b, ended) = end_accept_serving c.consuming waited stops a in
      let stopped : Channel Body W = touched waited w' tag b in
      let fired = is_fired-append waited ms rest q in
      let wait : Method Body W (Unit {0}) = λ c'.
        let f = is_fired n c' in
        (end_accept T c.consuming >> (λ c''. if f then (ok tt, c'') else (err timed_out, c'')))
          c' in
      let answer : wait waited ≡ (ok tt, stopped) =
        ap
          (λ r.
            and_then r (λ _ c''. if is_fired n waited then (ok tt, c'') else (err timed_out, c'')))
          ended
        ∙ ap (λ f. if f then (ok tt, stopped) else (err timed_out, stopped)) fired in
      (
        record (at stopped listen_channel s_accepted) { recv_queue = rest; next_state = none },
        ap
              (λ r.
                and_then (and_then (and_then r (λ _. modify deliver)) (λ _. wait))
                  (λ _. take_messages T create_accepted n))
              begun
            ∙ (ap (λ r. and_then r (λ _. take_messages T create_accepted n)) answer
                ∙ take_messages_all stopped ms rest q),
        refl,
        refl,
        a,
      )
