-- ===== src/IonProcess/Stuck.antt =====
-- src/pyon/ion/process.py, `heartbeat`: when it finds the process stuck.
use scioncc.Prelude.{
  ℕ, suc, ◌+◌, ◌*◌, Bool, false, not, ◌≡◌, refl, ◌==◌, ◌&&◌, ◌||◌, ltb, leb, Eq, eq_iff, nat_eq,
  option_eq, none, some, List, [], ◌∷◌, length, ok, arith, if◌then◌else◌, Option-cases, inl, inr,
}
use scioncc.IonProcess.Heartbeat.{Thresholds, Beat, Heartbeat, init, in_time, beat, heartbeat}

module _ {Frames : Type 0} ⦃e : Eq Frames⦄ where
  -- One call, at one place of its code.
  abbrev pub same : Beat Frames → Beat Frames → Bool
  same b b' = (b.ctrl_current == b'.ctrl_current) && (b.stack == b'.stack)

  -- The unbroken run of beats before a beat that have seen what it sees, the latest first.
  unfoldable pub streak : Beat Frames → List (Beat Frames) → List (Beat Frames)
  streak b [] = []
  streak b (b' ∷ earlier) = if same b b' then b' ∷ streak b' earlier else []

  unfoldable pub oldest : Beat Frames → List (Beat Frames) → Beat Frames
  oldest b [] = b
  oldest b (b' ∷ earlier) = oldest b' earlier

  -- Of a beat and its run: a call has been seen at one place again, more often than the one threshold or
  -- for as long as the other.
  abbrev repeats : Thresholds → Beat Frames → List (Beat Frames) → Bool
  repeats t b [] = false
  repeats t b (b' ∷ run) =
      ltb t.proc_count (suc (suc (length run)))
      || leb ((oldest b' run).now + t.proc_time * 1000) b.now

  abbrev pub is_stuck : Thresholds → Beat Frames → List (Beat Frames) → Bool
  is_stuck t b earlier = elim b.ctrl_current [
    | none ↦ false
    | some ar ↦ repeats t b (streak b earlier)
  ]

  module _ (t : Thresholds) where
    -- The fields after beats, of which the latest stands first.
    unfoldable pub after : List (Beat Frames) → Heartbeat Frames
    unfolding init heartbeat
    after [] = init
    after (b ∷ earlier) = (heartbeat t b (after earlier)).1

    -- What the fields keep of the beats.
    record Tracks (b : Beat Frames) (earlier : List (Beat Frames)) (h : Heartbeat Frames)
        : Type 0 where
      op : h.op ≡ b.ctrl_current
      seen :
          (ar : ℕ)
          → b.ctrl_current ≡ some ar
          → (h.stack ≡ some b.stack)
            × (h.time ≡ some (oldest b (streak b earlier)).now)
            × (h.count ≡ suc (length (streak b earlier)))

    -- The fields before the first beat or after the latest.
    abbrev Follows : List (Beat Frames) → Heartbeat Frames → Type 0
    Follows [] h = h ≡ init
    Follows (b ∷ earlier) h = Tracks b earlier h

    -- No call is being made.
    idle-Tracks :
        (b : Beat Frames) (earlier : List (Beat Frames)) (h : Heartbeat Frames)
        → b.ctrl_current ≡ none
        → Tracks b earlier (heartbeat t b h).1
          × ((heartbeat t b h).0 ≡ ok (not (is_stuck t b earlier)))
    unfolding heartbeat
    idle-Tracks b earlier h e = rw (heartbeat, e) (record { op = refl; seen = λ ar q. cc }, refl)

    -- The first beat.
    first-Tracks :
        (b : Beat Frames) (ar : ℕ)
        → b.ctrl_current ≡ some ar
        → Tracks b [] (heartbeat t b init).1 × ((heartbeat t b init).0 ≡ ok (not (is_stuck t b [])))
    unfolding heartbeat beat init streak oldest
    first-Tracks b ar e =
        rw (heartbeat, e) (record { op = refl; seen = λ ar' q. (refl, refl, refl) }, refl)

    -- A beat after another.
    next-Tracks :
        (b b' : Beat Frames) (rest : List (Beat Frames)) (ar : ℕ) (h : Heartbeat Frames)
        → b.ctrl_current ≡ some ar
        → Tracks b' rest h
        → Tracks b (b' ∷ rest) (heartbeat t b h).1
          × ((heartbeat t b h).0 ≡ ok (not (is_stuck t b (b' ∷ rest))))
    unfolding heartbeat beat in_time streak oldest
    next-Tracks b b' rest ar h e k =
        let o = eq_iff (some ar) h.op in
        let st = eq_iff (some b.stack) h.stack in
        let bo = eq_iff b.ctrl_current b'.ctrl_current in
        let bs = eq_iff b.stack b'.stack in
        (
          record {
            op = ground (arith, e, k.op, o);
            seen = λ ar' q. ground (arith, e, k.op, k.seen ar, o, st, bo, bs);
          },
          ground (arith, e, k.op, k.seen ar, o, st, bo, bs),
        )

    -- A beat that finds a call.
    call-Tracks :
        (b : Beat Frames) (earlier : List (Beat Frames)) (ar : ℕ) (h : Heartbeat Frames)
        → b.ctrl_current ≡ some ar
        → Follows earlier h
        → Tracks b earlier (heartbeat t b h).1
          × ((heartbeat t b h).0 ≡ ok (not (is_stuck t b earlier)))
    call-Tracks b [] ar h e k = rw k (first-Tracks b ar e)
    call-Tracks b (b' ∷ rest) ar h e k = next-Tracks b b' rest ar h e k

    -- The first beat or a later one, by what the fields keep of the one before.
    Tracks-beat :
        (b : Beat Frames) (earlier : List (Beat Frames)) (h : Heartbeat Frames)
        → Follows earlier h
        → Tracks b earlier (heartbeat t b h).1
          × ((heartbeat t b h).0 ≡ ok (not (is_stuck t b earlier)))
    Tracks-beat b earlier h k = elim (Option-cases b.ctrl_current) [
      | inl e ↦ idle-Tracks b earlier h e
      | inr (ar, e) ↦ call-Tracks b earlier ar h e k
    ]

    after-Tracks :
        (b : Beat Frames) (earlier : List (Beat Frames)) → Tracks b earlier (after (b ∷ earlier))
    unfolding after
    after-Tracks b [] = (Tracks-beat b [] init refl).0
    after-Tracks b (b' ∷ rest) =
        (Tracks-beat b (b' ∷ rest) (after (b' ∷ rest)) (after-Tracks b' rest)).0

    -- After any beats, the next one raises no error, and fails exactly if it finds the call that the
    -- beats right before it found, at the same place of its code, and their number, itself included,
    -- is above the one threshold or the first of them lies back as long as the other threshold says.
    pub heartbeat-is_stuck :
        (b : Beat Frames) (earlier : List (Beat Frames))
        → (heartbeat t b (after earlier)).0 ≡ ok (not (is_stuck t b earlier))
    unfolding after
    heartbeat-is_stuck b [] = (Tracks-beat b [] init refl).1
    heartbeat-is_stuck b (b' ∷ rest) =
        (Tracks-beat b (b' ∷ rest) (after (b' ∷ rest)) (after-Tracks b' rest)).1
