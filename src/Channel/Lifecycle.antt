-- ===== src/Channel/Lifecycle.antt =====
-- src/pyon/net/channel.py: what closing a channel does in each of its states, at once or, while it is
-- accepted, when the last message is acknowledged.
use mathlib.Core.Path.{subst}
use scioncc.Prelude.{
  ap, sym, ◌≡◌, ◌≢◌, ◌⊎◌, refl, true, false, none, some, [], ◌∷◌, ◌++◌, ok, err, nat_eq, arith,
  Bool-cases, inl, inr, if◌then◌else◌,
}
use scioncc.Fsm.{process, get_transition, take_transition, add_transition, Fsm}
use scioncc.Fsm
use scioncc.Fsm.Process.{process_acted}
use scioncc.Prelude.Dict
use scioncc.Channel.{
  Transport, shutdown, ChannelError, fsm_error, ChannelState, s_active, s_closed, s_closing,
  s_accepted, ChannelInput, on_close, on_close_while_accepted, i_close, i_exit_accept, ChannelKind,
  ChannelAct, state_eq, input_eq, send_channel, recv_channel, listen_channel, accepted_channel,
  Channel,
}
use scioncc.Channel.Base.{
  close_impl, process_input, perform, fsm_result, from_fsm, act, Machine, on_channel_close,
  stop_consume, recv_close_impl, base_close_impl, fsm_of, tables, base_fsm, listen_fsm,
}

kind_cases :
    (k : ChannelKind)
    → (k ≡ send_channel) ⊎ (k ≡ recv_channel) ⊎ (k ≡ listen_channel) ⊎ (k ≡ accepted_channel)
kind_cases k = ground arith

module _ {Body W : Type 0} where
  -- The machine that `c` has if its class and state are these.
  abbrev pub at : Channel Body W → ChannelKind → ChannelState → Channel Body W
  at c k s = record c { kind = k; current_state = some s }

  -- What is behind the transport once the channel's consumer, if it has one, is stopped.
  abbrev pub stopped_world : Transport Body W → Channel Body W → W
  stopped_world T c =
      if c.consuming then (T.stop_consume_impl c.consumer_tag c.world).1 else c.world

  -- The transport stops this channel's consumer, if it has one, and then closes, without an exception.
  pub record IsWilling (T : Transport Body W) (c : Channel Body W) : Type 0 where
    pub stops : c.consuming ≡ true → (T.stop_consume_impl c.consumer_tag c.world).0 ≡ ok tt
    pub closes : (T.close (stopped_world T c)).0 ≡ ok tt

  -- A channel that is closed for good: without a transport, a consumer or a pending state.
  pub record IsClosed (c : Channel Body W) : Type 0 where
    pub is_closed : c.current_state ≡ some s_closed
    pub is_settled : c.next_state ≡ none
    pub is_detached : c.attached ≡ false
    pub is_stopped : c.consuming ≡ false

module _ {Body W : Type 0} (T : Transport Body W) where
  pub stop_consume_willing :
      (c : Channel Body W)
      → (c.consuming ≡ true → (T.stop_consume_impl c.consumer_tag c.world).0 ≡ ok tt)
      → c.attached ≡ true
      → stop_consume T c ≡ (ok tt, record c { world = stopped_world T c; consuming = false })
  unfolding stop_consume
  stop_consume_willing c stops a = elim (Bool-cases c.consuming) [
    | inl b ↦ ground (arith, stops b)
    | inr b ↦ ground arith
  ]

  base_close_impl_willing :
      (c : Channel Body W)
      → (T.close c.world).0 ≡ ok tt
      → c.attached ≡ true
      → c.next_state ≡ some s_closed
      → (d : Channel Body W) × (base_close_impl T c ≡ (ok tt, d))
        × (d.next_state ≡ some s_closed)
        × (d.attached ≡ false)
        × (d.consuming ≡ c.consuming)
  unfolding base_close_impl on_channel_close
  base_close_impl_willing c closes a n = elim (Bool-cases T.closes_at_once) [
    | inl b ↦ (
      record (on_channel_close 200 (record c { world = (T.close c.world).1 })) { attached = false },
      ground (arith, closes),
      n,
      refl,
      refl,
    )
    | inr b ↦ (
      record c { world = (T.close c.world).1; attached = false },
      ground (arith, closes),
      n,
      refl,
      refl,
    )
  ]

  -- close_impl of a class that has a transport of its own.
  pub close_impl_willing :
      (c : Channel Body W)
      → IsWilling T c
      → c.kind ≢ accepted_channel
      → c.attached ≡ true
      → c.next_state ≡ some s_closed
      → (c.kind ≡ send_channel → c.consuming ≡ false)
      → (d : Channel Body W) × (close_impl T c ≡ (ok tt, d))
        × (d.next_state ≡ some s_closed)
        × (d.attached ≡ false)
        × (d.consuming ≡ false)
  unfolding close_impl recv_close_impl
  close_impl_willing c t k a n s =
      let shut : Channel Body W = record c { recv_queue = c.recv_queue ++ shutdown ∷ [] } in
      let stop = stop_consume_willing shut t.stops a in
      let (d, e, dn, da, dc) =
        base_close_impl_willing (record shut { world = stopped_world T c; consuming = false })
          t.closes a n in
      elim (kind_cases c.kind) [
        | inl h ↦
            let idle = s h in
            let (d', e', dn', da', dc') =
              base_close_impl_willing c (ground (arith, t.closes, idle)) a n in
            (d', ground (arith), dn', da', ground (arith))
        | inr (inl h) ↦ (d, ground (arith), dn, da, dc)
        | inr (inr (inl h)) ↦ (d, ground (arith), dn, da, dc)
        | inr (inr (inr h)) ↦ elim (k h) [ ]
      ]

  abbrev pub FoundIn : Channel Body W → ChannelInput → ChannelState → ChannelAct → Type 0
  FoundIn c i s a =
      get_transition {X = ChannelError} (record (fsm_of c) { input_symbol = some i }) i (some s)
      ≡ ok (some a, some s_closed)

  mode : (c : Channel Body W) (k : ChannelKind) → (tables k c).post_action ≡ false
  unfolding tables base_fsm listen_fsm add_transition Fsm.init
  mode c send_channel = refl
  mode c recv_channel = refl
  mode c listen_channel = refl
  mode c accepted_channel = refl

  -- A transition into CLOSED whose action returns.
  pub process_into :
      (c : Channel Body W) (i : ChannelInput) (s : ChannelState) (a : ChannelAct)
      (d : Channel Body W)
      → c.current_state ≡ some s
      → FoundIn c i s a
      → act T a (record c { next_state = some s_closed }) ≡ (ok tt, d)
      → process_input T i c ≡ (ok tt, record d { current_state = d.next_state; next_state = none })
  unfolding process_input fsm_of
  process_into c i s a d cs f h =
      let m : Machine Body W = fsm_of c in
      let acting : Machine Body W = record m {
        input_symbol = some i;
        action = some a;
        next_state = some s_closed;
      } in
      let left : Machine Body W = record acting {
        memory = d;
        current_state = d.current_state;
        next_state = d.next_state;
      } in
      ap (λ r. (fsm_result T r.0, from_fsm r.1))
        (process_acted (perform T) m i a (some s_closed) tt left
          (subst
            (λ st.
              get_transition {X = ChannelError} (record m { input_symbol = some i }) i st
              ≡ ok (some a, some s_closed))
            (sym cs) f)
          (mode c c.kind)
          (ap
            (λ r. (
              r.0,
              record acting {
                memory = r.1;
                current_state = r.1.current_state;
                next_state = r.1.next_state;
              },
            ))
            h)
          (mode c c.kind))

  -- What a channel's class and state make of `close` and `exit_accept`.
  pub found_active :
      (c : Channel Body W) (k : ChannelKind)
      → FoundIn (record c { kind = k; current_state = some s_active }) i_close s_active on_close
  unfolding get_transition fsm_of tables base_fsm listen_fsm add_transition Fsm.init Dict.get
      Dict.put
  found_active c send_channel = refl
  found_active c recv_channel = refl
  found_active c listen_channel = refl
  found_active c accepted_channel = refl

  pub found_closing :
      (c : Channel Body W)
      → FoundIn (at c listen_channel s_closing) i_exit_accept s_closing on_close_while_accepted
  unfolding get_transition fsm_of tables base_fsm listen_fsm add_transition Fsm.init Dict.get
      Dict.put
  found_closing c = refl

  pub accepted_closes :
      (c : Channel Body W)
      → process_input T i_close (at c listen_channel s_accepted) ≡ (
        ok tt,
        record c { kind = listen_channel; current_state = some s_closing; next_state = none },
      )
  unfolding process_input process get_transition take_transition fsm_of tables base_fsm listen_fsm
      add_transition Fsm.init Dict.get Dict.put
  accepted_closes c = refl

  pub closing_refuses :
      (c : Channel Body W)
      → process_input T i_close (at c listen_channel s_closing)
        ≡ (err fsm_error, at c listen_channel s_closing)
  unfolding process_input process get_transition take_transition fsm_of tables base_fsm listen_fsm
      add_transition Fsm.init Dict.get Dict.put
  closing_refuses c = refl
