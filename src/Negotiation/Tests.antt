-- ===== src/Negotiation/Tests.antt =====
-- A negotiation between a consumer and a provider, and the theorems at it.
use scioncc.Prelude.{
  ℕ, String, ◌≡◌, refl, Bool, true, Option, none, some, List, [], ◌∷◌, ◌==◌, In, string_eq, nat_eq,
}
use scioncc.Negotiation.{
  ProposalStatusEnum, initial, accepted, ProposalOriginatorEnum, consumer, provider,
  accepted_status, Proposal, NegotiationObject, Effect, accept_action, create_association,
  accepted_by_other, synchronize, recorded_proposal, effects, update_negotiation,
  pre_conditions_met, lstrip_not, create_negotiation, new_negotiation, create_counter_proposal,
}
use scioncc.Negotiation.Agreement.{
  Agreed, IsSound, updated, negotiated, negotiated-IsSound, update_negotiation-Agreed,
}

program : Unit {0}
unfolding accepted_by_other synchronize recorded_proposal effects update_negotiation
    pre_conditions_met lstrip_not create_negotiation create_counter_proposal updated
program = tt

abbrev proposal : ℕ → ProposalOriginatorEnum → ProposalStatusEnum → Proposal
proposal n who status = record {
  type_ = "Enroll";
  negotiation_id = "n1";
  originator = who;
  consumer_id = "c";
  provider_id = "p";
  broker_id = "";
  sequence_num = n;
  proposal_status = status;
  description = "";
}

abbrev no_reason : Option String
no_reason = none

abbrev calls : List (Proposal × Option String)
calls =
    (proposal 0 consumer initial, no_reason)
    ∷ (proposal 1 provider accepted, no_reason)
    ∷ (proposal 2 consumer accepted, no_reason)
    ∷ []

abbrev rules : String → Bool
rules name = name == "Enroll"

abbrev created : NegotiationObject
created = new_negotiation (proposal 0 consumer initial)

created-IsSound : IsSound created
created-IsSound = record { numbered = tt; agreed = λ e. cc }

settled : (negotiated true rules created calls).negotiation_status ≡ accepted_status
unfolding program
settled = refl

-- The prefix of a negated precondition is taken off as a set of characters.
stripped : lstrip_not "not token_valid" ≡ "ken_valid"
unfolding program
stripped = refl

negotiated-IsSound_example : IsSound (negotiated true rules created calls)
negotiated-IsSound_example = negotiated-IsSound true rules calls created created-IsSound

abbrev agreed : NegotiationObject
agreed = negotiated true rules created calls

abbrev store : String → Option NegotiationObject
store id = some agreed

abbrev offer : Proposal
offer = proposal 0 consumer initial

abbrev begun : String → Option NegotiationObject
begun id = some created

update_negotiation-Agreed_example :
    IsSound (recorded_proposal created offer none)
    × ((p : Proposal)
        → In
            (accept_action p)
            (effects begun true rules (recorded_proposal created offer none) offer)
        → Agreed (recorded_proposal created offer none).proposals)
unfolding program
update_negotiation-Agreed_example =
    update_negotiation-Agreed true rules begun offer none created
      (recorded_proposal created offer none)
      (effects begun true rules (recorded_proposal created offer none) offer) refl created-IsSound
      refl

abbrev fresh : Proposal
fresh = record offer { negotiation_id = "" }

abbrev parties : List Effect
parties =
    Effect.create_resource (new_negotiation fresh)
    ∷ create_association "c"
    ∷ create_association "p"
    ∷ []
