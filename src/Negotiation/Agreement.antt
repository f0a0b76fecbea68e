-- ===== src/Negotiation/Agreement.antt =====
-- src/pyon/core/governance/negotiation.py: the proposals of a negotiation, its status, and its accept
-- action.
use scioncc.Prelude.{
  ℕ, ◌+◌, String, ◌≡◌, refl, sym, Bool, true, false, not, ◌&&◌, ◌==◌, ◌⊎◌, Option, some, List, [],
  ◌∷◌, ◌++◌, length, nat_eq, string_eq, ok, err, arith, eq_iff, inl, inr, In, In-append_left,
  In-append_right, Bool-cases,
}
use mathlib.Core.Path.{subst}
use scioncc.Negotiation.{
  ProposalOriginatorEnum, open_status, Proposal, NegotiationObject, Effect, accept_action,
  is_accepted, is_rejected, same_originator, is_accepted_status, accepted_by_other, synchronize,
  recorded_proposal, effects, update_negotiation, new_negotiation, create_association,
  pre_conditions_met, create_negotiation,
}

-- Two proposals of different parties were accepted.
abbrev pub Agreed : List Proposal → Type 0
Agreed ps =
    (p : Proposal) × (q : Proposal) × In p ps
    × In q ps
    × (is_accepted p.proposal_status ≡ true)
    × (is_accepted q.proposal_status ≡ true)
    × (same_originator p.originator q.originator ≡ false)

-- The proposals are numbered from `n` on.
abbrev pub Numbered : ℕ → List Proposal → Type 0
Numbered n [] = Unit
Numbered n (p ∷ ps) = (p.sequence_num ≡ n) × Numbered (n + 1) ps

pub record IsSound (neg : NegotiationObject) : Type 0 where
  pub numbered : Numbered 0 neg.proposals
  pub agreed : is_accepted_status neg.negotiation_status ≡ true → Agreed neg.proposals

other-accepted :
    (ps : List Proposal) (who : ProposalOriginatorEnum)
    → accepted_by_other ps who ≡ true
    → (p : Proposal) × In p ps
      × (is_accepted p.proposal_status ≡ true)
      × (same_originator p.originator who ≡ false)
unfolding accepted_by_other
other-accepted [] who h = cc
other-accepted (p ∷ ps) who h =
    elim (Bool-cases (is_accepted p.proposal_status && not (same_originator p.originator who))) [
      | inl here ↦ (p, inl refl, ground arith, ground arith)
      | inr there ↦
          let (q, at, agreed_q, foreign) = other-accepted ps who (ground (arith, there)) in
          (q, inr at, agreed_q, foreign)
    ]

Numbered-snoc :
    (n : ℕ) (ps : List Proposal) (p : Proposal)
    → Numbered n ps
    → p.sequence_num ≡ n + length ps
    → Numbered n (ps ++ p ∷ [])
Numbered-snoc n [] p v h = (ground arith, tt)
Numbered-snoc n (q ∷ ps) p v h = (v.0, Numbered-snoc (n + 1) ps p v.1 (ground arith))

Agreed-snoc : (ps : List Proposal) (p : Proposal) → Agreed ps → Agreed (ps ++ p ∷ [])
Agreed-snoc ps p (a, b, ina, inb, ya, yb, foreign) =
    (a, b, In-append_left a ps (p ∷ []) ina, In-append_left b ps (p ∷ []) inb, ya, yb, foreign)

synchronize-accepted :
    (neg : NegotiationObject) (sap : Proposal)
    → is_accepted_status (synchronize neg sap) ≡ true
    → (is_accepted_status neg.negotiation_status ≡ true)
      ⊎ ((is_accepted sap.proposal_status ≡ true)
          × (accepted_by_other neg.proposals sap.originator ≡ true))
unfolding synchronize
synchronize-accepted neg sap h = ground arith

recorded_proposal-IsSound :
    (neg : NegotiationObject) (sap : Proposal) (reason : Option String)
    → IsSound neg
    → sap.sequence_num ≡ length neg.proposals
    → IsSound (recorded_proposal neg sap reason)
unfolding recorded_proposal
recorded_proposal-IsSound neg sap reason v h = record {
  numbered = Numbered-snoc 0 neg.proposals sap v.numbered (ground arith);
  agreed = λ status. elim (synchronize-accepted neg sap status) [
    | inl before ↦ Agreed-snoc neg.proposals sap (v.agreed before)
    | inr (mine, theirs) ↦
        let (p, at, agreed_p, foreign) = other-accepted neg.proposals sap.originator theirs in
        (
          p,
          sap,
          In-append_left p neg.proposals (sap ∷ []) at,
          In-append_right sap neg.proposals (sap ∷ []) (inl refl),
          agreed_p,
          mine,
          foreign,
        )
  ];
}

module _ (has_publisher : Bool) (has_rules : String → Bool) where
  -- One call of update_negotiation with the negotiation as it is stored; what it raises leaves that
  -- as it was.
  unfoldable pub updated : NegotiationObject → Proposal × Option String → NegotiationObject
  updated neg (sap, reason) =
      elim (update_negotiation (λ id. some neg) has_publisher has_rules (some sap) reason) [
        | ok (neg', es) ↦ neg'
        | err e ↦ neg
      ]

  abbrev pub negotiated : NegotiationObject → List (Proposal × Option String) → NegotiationObject
  negotiated neg [] = neg
  negotiated neg (call ∷ calls) = negotiated (updated neg call) calls

  -- What an update that returns has checked and done.
  update-returns :
      (read : String → Option NegotiationObject) (sap : Proposal) (reason : Option String)
      (neg neg' : NegotiationObject) (es : List Effect)
      → read sap.negotiation_id ≡ some neg
      → update_negotiation read has_publisher has_rules (some sap) reason ≡ ok (neg', es)
      → (sap.sequence_num ≡ length neg.proposals)
        × (neg' ≡ recorded_proposal neg sap reason)
        × (es ≡ effects read has_publisher has_rules neg' sap)
  unfolding update_negotiation
  update-returns read sap reason neg neg' es at h =
      ground (arith, at, eq_iff sap.sequence_num (length neg.proposals))

  updated-cases :
      (neg : NegotiationObject) (sap : Proposal) (reason : Option String)
      → (updated neg (sap, reason) ≡ neg)
        ⊎ ((sap.sequence_num ≡ length neg.proposals)
            × (updated neg (sap, reason) ≡ recorded_proposal neg sap reason))
  unfolding updated update_negotiation
  updated-cases neg sap reason = ground (arith, eq_iff sap.sequence_num (length neg.proposals))

  updated-IsSound :
      (neg : NegotiationObject) (call : Proposal × Option String)
      → IsSound neg
      → IsSound (updated neg call)
  updated-IsSound neg (sap, reason) v = elim (updated-cases neg sap reason) [
    | inl same ↦ subst IsSound (sym same) v
    | inr (numbered, moved) ↦
        subst IsSound (sym moved) (recorded_proposal-IsSound neg sap reason v numbered)
  ]

  -- Whatever proposals are sent in from the first one on, those on record are numbered in their
  -- order, and the negotiation is accepted only if two different parties have accepted.
  pub negotiated-IsSound :
      (calls : List (Proposal × Option String)) (neg : NegotiationObject)
      → IsSound neg
      → IsSound (negotiated neg calls)
  negotiated-IsSound [] neg v = v
  negotiated-IsSound (call ∷ calls) neg v =
      negotiated-IsSound calls (updated neg call) (updated-IsSound neg call v)

  action-accepted :
      (read : String → Option NegotiationObject) (neg : NegotiationObject) (sap p : Proposal)
      → In (accept_action p) (effects read has_publisher has_rules neg sap)
      → is_accepted_status neg.negotiation_status ≡ true
  unfolding effects
  action-accepted read neg sap p h = ground arith

  -- An update of a sound negotiation leaves it sound, and runs the accept action only if two
  -- different parties have accepted by then.
  pub update_negotiation-Agreed :
      (read : String → Option NegotiationObject) (sap : Proposal) (reason : Option String)
      (neg neg' : NegotiationObject) (es : List Effect)
      → read sap.negotiation_id ≡ some neg
      → IsSound neg
      → update_negotiation read has_publisher has_rules (some sap) reason ≡ ok (neg', es)
      → IsSound neg' × ((p : Proposal) → In (accept_action p) es → Agreed neg'.proposals)
  update_negotiation-Agreed read sap reason neg neg' es at v h =
      let (numbered, moved, done) = update-returns read sap reason neg neg' es at h in
      let v' : IsSound neg' =
        subst IsSound (sym moved) (recorded_proposal-IsSound neg sap reason v numbered) in
      (
        v',
        λ p ran.
            v'.agreed
              (action-accepted read neg' sap p (subst (λ l. In (accept_action p) l) done ran)),
      )

  -- Once a negotiation is accepted, every further proposal that is not a rejection runs the accept
  -- action on itself, also one that nobody has accepted, such as a counter proposal.
  pub update_negotiation_again :
      (read : String → Option NegotiationObject) (sap : Proposal) (reason : Option String)
      (neg : NegotiationObject)
      → (sap.negotiation_id == "") ≡ false
      → read sap.negotiation_id ≡ some neg
      → sap.sequence_num ≡ length neg.proposals
      → is_accepted_status neg.negotiation_status ≡ true
      → is_rejected sap.proposal_status ≡ false
      → has_rules sap.type_ ≡ true
      → (neg' : NegotiationObject) × (es : List Effect) × (update_negotiation read has_publisher
            has_rules
            (some sap)
            reason
          ≡ ok (neg', es))
        × In (accept_action sap) es
  unfolding update_negotiation effects synchronize recorded_proposal
  update_negotiation_again read sap reason neg named at numbered settled accepting rules = (
    recorded_proposal neg sap reason,
    effects read has_publisher has_rules (recorded_proposal neg sap reason) sap,
    ground (arith, at, named, eq_iff sap.sequence_num (length neg.proposals)),
    ground arith,
  )

-- A negotiation that is created is sound and open, from an initial proposal whose preconditions hold,
-- and is associated with both of its parties.
pub create_negotiation-IsSound :
    (evaluate : String → Bool) (pre_conditions : String → List String) (sap : Proposal)
    (neg : NegotiationObject) (es : List Effect)
    → create_negotiation evaluate pre_conditions (some sap) ≡ ok (neg, es)
    → IsSound neg
      × (neg.negotiation_status ≡ open_status)
      × (pre_conditions_met evaluate (pre_conditions sap.type_) ≡ true)
      × (sap.sequence_num ≡ 0)
      × In (create_association sap.consumer_id) es
      × In (create_association sap.provider_id) es
unfolding create_negotiation
create_negotiation-IsSound evaluate pre_conditions sap neg es h =
    let made : neg ≡ new_negotiation sap = ground arith in
    let fresh : IsSound (new_negotiation sap) = record { numbered = tt; agreed = λ e. cc } in
    (
      subst IsSound (sym made) fresh,
      ground arith,
      ground arith,
      ground (arith, eq_iff sap.sequence_num 0),
      ground arith,
      ground arith,
    )
