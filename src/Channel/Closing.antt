-- ===== src/Channel/Closing.antt =====
-- src/pyon/net/channel.py: closing a channel at once, and one that is accepted when its last message
-- is acknowledged.
use mathlib.Core.Path.{subst}
use scioncc.Prelude.{
  ap, sym, ◌∙◌, ◌≡◌, ◌≢◌, refl, true, false, none, some, ok, err, and_then, ◌>>◌, nat_eq, arith,
  Bool-cases, inl, inr,
}
use scioncc.Channel.{
  Transport, fsm_error, s_active, s_closed, s_closing, s_accepted, on_close,
  on_close_while_accepted, i_close, i_exit_accept, state_eq, input_eq, send_channel, listen_channel,
  accepted_channel, Channel,
}
use scioncc.Channel.Base.{close, close_impl, process_input, act}
use scioncc.Channel.Listen.{exit_accept}
use scioncc.Channel.Lifecycle.{
  at, IsWilling, IsClosed, stopped_world, stop_consume_willing, FoundIn, process_into, found_active,
  found_closing, accepted_closes, closing_refuses, close_impl_willing,
}

module _ {Body W : Type 0} (T : Transport Body W) where
  close-process_input :
      (c : Channel Body W)
      → c.close_callback ≡ false
      → close T c ≡ process_input T i_close (record c { close_event = true })
  unfolding close
  close-process_input c cb = elim (Bool-cases c.close_callback) [
    | inl h ↦ ground arith
    | inr h ↦ ground arith
  ]

  -- An active channel of a class that owns its transport is closed by one call of `close`, if its
  -- transport stops the channel's consumer, where it has one, and then closes without an exception, and
  -- no close callback is set. A SendChannel has no consumer.
  pub close-IsClosed :
      (c : Channel Body W)
      → IsWilling T c
      → c.kind ≢ accepted_channel
      → (c.kind ≡ send_channel → c.consuming ≡ false)
      → c.current_state ≡ some s_active
      → c.attached ≡ true
      → c.close_callback ≡ false
      → ((close T c).0 ≡ ok tt) × IsClosed (close T c).1
  close-IsClosed c t k s cs a cb =
      let closing : Channel Body W = record c { close_event = true } in
      let (d, e, dn, da, dc) =
        close_impl_willing T (record closing { next_state = some s_closed })
          (record { stops = t.stops; closes = t.closes }) k a refl s in
      let done =
        process_into T closing i_close s_active on_close d cs
          (subst (λ st. FoundIn T (record closing { current_state = st }) i_close s_active on_close)
            (sym cs) (found_active T closing c.kind))
          e in
      subst (λ r. (r.0 ≡ ok tt) × IsClosed r.1) (sym (close-process_input c cb ∙ done))
        (refl, record { is_closed = dn; is_settled = refl; is_detached = da; is_stopped = dc })

  -- The action of leaving CLOSING.
  late_close_willing :
      (c : Channel Body W)
      → IsWilling T c
      → c.kind ≡ listen_channel
      → c.attached ≡ true
      → c.next_state ≡ some s_closed
      → (d : Channel Body W) × (act T on_close_while_accepted c ≡ (ok tt, d))
        × (d.next_state ≡ some s_closed)
        × (d.attached ≡ false)
        × (d.consuming ≡ false)
  late_close_willing c t k a n =
      let stop = stop_consume_willing T c t.stops a in
      let stopped : Channel Body W = record c { world = stopped_world T c; consuming = false } in
      let (d, e, dn, da, dc) =
        close_impl_willing T stopped (record { stops = λ h. cc; closes = t.closes })
          (λ h. ground arith) a n (λ h. refl) in
      (d, ap (λ r. and_then r (λ _. close_impl T)) stop ∙ e, dn, da, dc)

  -- Where a listening channel is accepted, `close` only marks it as closing and leaves the transport as
  -- it is; the next `exit_accept` closes it, if the transport stops the channel's consumer, where it has
  -- one, and then closes without an exception, and no close callback is set.
  pub close-exit_accept :
      (c : Channel Body W)
      → IsWilling T c
      → c.attached ≡ true
      → c.close_callback ≡ false
      → let accepted = at c listen_channel s_accepted in
        ((close T accepted).0 ≡ ok tt)
        × ((close T accepted).1.current_state ≡ some s_closing)
        × ((close T accepted).1.attached ≡ true)
        × ((close T accepted).1.world ≡ c.world)
        × (((close T >> exit_accept T) accepted).0 ≡ ok tt)
        × IsClosed ((close T >> exit_accept T) accepted).1
  unfolding exit_accept
  close-exit_accept c t a cb =
      let accepted : Channel Body W = at c listen_channel s_accepted in
      let closing : Channel Body W = record (at c listen_channel s_closing) {
        close_event = true;
        next_state = none;
      } in
      let first =
        close-process_input accepted cb ∙ accepted_closes T (record c { close_event = true }) in
      let (d, e, dn, da, dc) =
        late_close_willing (record closing { next_state = some s_closed })
          (record { stops = t.stops; closes = t.closes }) refl a refl in
      let last =
        process_into T closing i_exit_accept s_closing on_close_while_accepted d refl
          (found_closing T closing) e in
      let both = ap (λ r. and_then r (λ _. exit_accept T)) first ∙ last in
      (
        ap (λ r. r.0) first,
        ap (λ r. r.1.current_state) first,
        ap (λ r. r.1.attached) first ∙ a,
        ap (λ r. r.1.world) first,
        ap (λ r. r.0) both,
        subst (λ r. IsClosed r.1) (sym both)
            (record { is_closed = dn; is_settled = refl; is_detached = da; is_stopped = dc }),
      )

  -- A second `close` while the channel is still accepted raises ExceptionFSM, with the channel as it
  -- was but for the event.
  close-close :
      (c : Channel Body W)
      → c.close_callback ≡ false
      → (close T >> close T) (at c listen_channel s_accepted) ≡ (
        err fsm_error,
        record (at c listen_channel s_closing) { close_event = true; next_state = none },
      )
  close-close c cb =
      let closing : Channel Body W = record (at c listen_channel s_closing) {
        close_event = true;
        next_state = none;
      } in
      ap (λ r. and_then r (λ _. close T))
        (close-process_input (at c listen_channel s_accepted) cb
          ∙ accepted_closes T (record c { close_event = true }))
      ∙ (close-process_input closing cb ∙ closing_refuses T closing)
