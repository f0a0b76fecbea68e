-- ===== src/Channel/Checkin.antt =====
-- src/pyon/net/channel.py, AcceptedListenChannel: how the acknowledgements of its messages give the
-- listening channel back.
use scioncc.Prelude.{
  ◌≡◌, refl, ap, ◌∙◌, true, none, List, [], ◌∷◌, ◌++◌, Eq, eq_iff, contains, remove_first, IsNodup,
  contains-remove_first, IsNodup-remove_first, ok, pair_eq, nat_eq, arith,
}
use scioncc.Fsm
use scioncc.Fsm.{process, get_transition, take_transition, add_transition}
use scioncc.Prelude.Dict
use scioncc.Channel.{
  Tag, Transport, Channel, s_accepted, s_active, listen_channel, state_eq, input_eq,
}
use scioncc.Channel.Base.{process_input, fsm_of, tables, base_fsm, listen_fsm}
use scioncc.Channel.Lifecycle.{at}
use scioncc.Channel.Listen.{checkin, exit_accept}

module _ {A : Type 0} ⦃e : Eq A⦄ where
  singleton_nodup :
      (xs : List A) (a : A)
      → IsNodup xs
      → ((x : A) → contains xs x ≡ contains (a ∷ []) x)
      → xs ≡ a ∷ []
  unfolding contains
  singleton_nodup [] a h same = ground (arith, same a, eq_iff a a)
  singleton_nodup (x ∷ []) a h same = ground (arith, same x, eq_iff a x, eq_iff x x)
  singleton_nodup (x ∷ y ∷ xs) a h same =
      ground (arith, same x, same y, eq_iff a x, eq_iff x x, eq_iff y y, eq_iff a y, eq_iff y x)

  nonempty_contains :
      (xs : List A) (a : A) → contains xs a ≡ true → (y : A) × (ys : List A) × (xs ≡ y ∷ ys)
  unfolding contains
  nonempty_contains [] a h = ground arith
  nonempty_contains (x ∷ xs) a h = (x, xs, refl)

  contains-append : (xs ys : List A) (a : A) → contains ys a ≡ true → contains (xs ++ ys) a ≡ true
  unfolding contains
  contains-append [] ys a h = h
  contains-append (x ∷ xs) ys a h = ground (arith, contains-append xs ys a h)

  contains-snoc_last : (xs : List A) (a : A) → contains (xs ++ a ∷ []) a ≡ true
  unfolding contains
  contains-snoc_last xs a = contains-append xs (a ∷ []) a (ground (arith, eq_iff a a))

  -- Taking the same value out of a list and of one with the same values.
  same-remove_first :
      (u : A) (vs tags : List A)
      → IsNodup (u ∷ vs)
      → IsNodup tags
      → ((x : A) → contains tags x ≡ contains (u ∷ vs) x)
      → (x : A) → contains (remove_first tags u) x ≡ contains vs x
  unfolding contains
  same-remove_first u vs tags h g same x =
      ground (arith, contains-remove_first tags u x g, same x, eq_iff u x)

  same_head :
      (u : A) (vs tags : List A)
      → ((x : A) → contains tags x ≡ contains (u ∷ vs) x)
      → contains tags u ≡ true
  unfolding contains
  same_head u vs tags same = ground (arith, same u, eq_iff u u)

module _ {Body W : Type 0} (T : Transport Body W) where
  -- The acknowledgements one after the other, by what they leave.
  unfoldable pub checkins : List Tag → List Tag × Channel Body W → List Tag × Channel Body W
  unfolding checkin
  checkins [] s = s
  checkins (t ∷ ts) s = checkins ts (checkin T t s).1

  checkin_last :
      (t : Tag) (parent : Channel Body W)
      → checkin T t (t ∷ [], parent) ≡ ((exit_accept T parent).0, ([], (exit_accept T parent).1))
  unfolding checkin contains remove_first
  checkin_last t parent = ground (arith, eq_iff t t)

  checkin_not_last :
      (u : Tag) (tags : List Tag) (y : Tag) (ys : List Tag) (parent : Channel Body W)
      → contains tags u ≡ true
      → remove_first tags u ≡ y ∷ ys
      → checkin T u (tags, parent) ≡ (ok tt, (remove_first tags u, parent))
  unfolding checkin
  checkin_not_last u tags y ys parent h left = ground (arith, h, left)

  checkins-checkin :
      (us : List Tag) (t : Tag) (tags : List Tag) (parent : Channel Body W)
      → IsNodup (us ++ t ∷ [])
      → IsNodup tags
      → ((x : Tag) → contains tags x ≡ contains (us ++ t ∷ []) x)
      → ((checkins us (tags, parent)).1 ≡ parent)
        × (checkin T t (checkins us (tags, parent))
            ≡ ((exit_accept T parent).0, ([], (exit_accept T parent).1)))
  unfolding checkins
  checkins-checkin [] t tags parent h g same = (
    refl,
    ap (λ ts. checkin T t (ts, parent)) (singleton_nodup tags t g same) ∙ checkin_last t parent,
  )
  checkins-checkin (u ∷ us) t tags parent h g same =
      let left : List Tag = remove_first tags u in
      let vs : List Tag = us ++ t ∷ [] in
      let same' = same-remove_first u vs tags h g same in
      let (y, ys, e) = nonempty_contains left t (same' t ∙ contains-snoc_last us t) in
      let step = checkin_not_last u tags y ys parent (same_head u vs tags same) e in
      let rest = checkins-checkin us t left parent h.1 (IsNodup-remove_first tags u g) same' in
      (
        ap (λ r. (checkins us r.1).1) step ∙ rest.0,
        ap (λ r. checkin T t (checkins us r.1)) step ∙ rest.1,
      )

  leaves_accepted :
      (c : Channel Body W)
      → exit_accept T (at c listen_channel s_accepted)
        ≡ (ok tt, record (at c listen_channel s_active) { next_state = none })
  unfolding exit_accept process_input process get_transition take_transition fsm_of tables base_fsm
      listen_fsm add_transition Fsm.init Dict.get Dict.put
  leaves_accepted c = refl

  -- Whatever the order in which all noted messages of an accepted channel are acknowledged, it stays
  -- ACCEPTED and as it is until the last acknowledgement, which takes it back to ACTIVE and raises
  -- nothing; no message is noted afterwards.
  pub checkins-exit_accept :
      (us : List Tag) (t : Tag) (tags : List Tag) (c : Channel Body W)
      → IsNodup (us ++ t ∷ [])
      → IsNodup tags
      → ((x : Tag) → contains tags x ≡ contains (us ++ t ∷ []) x)
      → let accepted = at c listen_channel s_accepted in
        ((checkins us (tags, accepted)).1 ≡ accepted)
        × (checkin T t (checkins us (tags, accepted))
            ≡ (ok tt, ([], record (at c listen_channel s_active) { next_state = none })))
  checkins-exit_accept us t tags c h g same =
      let (kept, last) = checkins-checkin us t tags (at c listen_channel s_accepted) h g same in
      (kept, last ∙ ap (λ r. (r.0, ([], r.1))) (leaves_accepted c))
