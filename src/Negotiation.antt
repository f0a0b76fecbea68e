-- ===== src/Negotiation.antt =====
-- src/pyon/core/governance/negotiation.py, class Negotiation, with its objects of
-- defs/objects/data/core/org.yml. What a call asks of the resource registry, of the event
-- publisher and of the service provider is the list of effects that it returns; they are taken to
-- succeed. `evaluate` stands for `eval("self.service_provider." + …)` of a precondition.
pub mod Agreement
mod Tests
use Prim.Native.Char.{Char, code}
use Prim.Native.String
use scioncc.Prelude.{
  ℕ, ◌+◌, String, Bool, true, false, not, ◌&&◌, ◌||◌, ◌==◌, Option, none, some, List, [], ◌∷◌, ◌++◌,
  if◌then◌else◌, length, nat_eq, string_eq, Result, ok, err,
}

pub data ProposalStatusEnum : Type 0 where
  initial counter accepted rejected granted : ProposalStatusEnum

pub data ProposalOriginatorEnum : Type 0 where
  consumer provider broker : ProposalOriginatorEnum

pub data NegotiationStatusEnum : Type 0 where
  open_status accepted_status rejected_status : NegotiationStatusEnum

pub data NegotiationTypeEnum : Type 0 where
  request invitation brokered : NegotiationTypeEnum

pub record Proposal : Type 0 where
  pub type_ : String
  pub negotiation_id : String
  pub originator : ProposalOriginatorEnum
  pub consumer_id : String
  pub provider_id : String
  pub broker_id : String
  pub sequence_num : ℕ
  pub proposal_status : ProposalStatusEnum
  pub description : String

pub record NegotiationObject : Type 0 where
  pub negotiation_type : NegotiationTypeEnum
  pub negotiation_status : NegotiationStatusEnum
  pub description : String
  pub reason : String
  pub proposals : List Proposal

pub data NegotiationError : Type 0 where
  bad_request inconsistent not_found : NegotiationError

pub data Effect : Type 0 where
  update_resource : NegotiationObject → Effect
  publish_status : Proposal → ProposalStatusEnum → Effect
  accept_action : Proposal → Effect
  create_resource : NegotiationObject → Effect
  create_association : String → Effect

abbrev pub is_accepted : ProposalStatusEnum → Bool
is_accepted accepted = true
is_accepted _ = false

abbrev pub is_rejected : ProposalStatusEnum → Bool
is_rejected rejected = true
is_rejected _ = false

abbrev pub same_originator : ProposalOriginatorEnum → ProposalOriginatorEnum → Bool
same_originator consumer consumer = true
same_originator provider provider = true
same_originator broker broker = true
same_originator _ _ = false

abbrev pub is_accepted_status : NegotiationStatusEnum → Bool
is_accepted_status accepted_status = true
is_accepted_status _ = false

-- The loop that looks for an accepted proposal of another party.
unfoldable pub accepted_by_other : List Proposal → ProposalOriginatorEnum → Bool
accepted_by_other [] who = false
accepted_by_other (prop ∷ proposals) who =
    (is_accepted prop.proposal_status && not (same_originator prop.originator who))
    || accepted_by_other proposals who

-- "Synchronize negotiation status based on proposals"
unfoldable pub synchronize : NegotiationObject → Proposal → NegotiationStatusEnum
synchronize neg sap =
    if is_rejected sap.proposal_status
    then rejected_status
    else if is_accepted sap.proposal_status && accepted_by_other neg.proposals sap.originator
    then accepted_status
    else neg.negotiation_status

-- The negotiation with the proposal on record.
unfoldable pub recorded_proposal : NegotiationObject → Proposal → Option String → NegotiationObject
recorded_proposal neg sap reason = record neg {
  negotiation_status = synchronize neg sap;
  reason = elim reason [ none ↦ neg.reason | some r ↦ r ];
  proposals = neg.proposals ++ sap ∷ [];
}

-- update_negotiation, with what the registry reads, whether there is an event publisher, and which
-- proposal types have negotiation rules.
module _ (read : String → Option NegotiationObject) (has_publisher : Bool)
    (has_rules : String → Bool) where
  abbrev published : Proposal → ProposalStatusEnum → List Effect
  published sap status = if has_publisher then publish_status sap status ∷ [] else []

  unfoldable pub effects : NegotiationObject → Proposal → List Effect
  effects neg sap =
      update_resource neg
      ∷ (published sap sap.proposal_status
          ++ (if is_accepted_status neg.negotiation_status
              then (if has_rules sap.type_ then accept_action sap ∷ [] else [])
                ++ published sap granted
              else []))

  unfoldable pub update_negotiation :
      Option Proposal → Option String → Result NegotiationError (NegotiationObject × List Effect)
  update_negotiation none reason = err inconsistent
  update_negotiation (some sap) reason =
      if sap.negotiation_id == "" then err inconsistent else elim (read sap.negotiation_id) [
        | none ↦ err not_found
        | some neg ↦
            if not (sap.sequence_num == length neg.proposals)
            then err inconsistent
            else (let neg' = recorded_proposal neg sap reason in ok (neg', effects neg' sap))
      ]

abbrev is_strip_char : Char → Bool
is_strip_char c = (code c == b'n') || ((code c == b'o') || ((code c == b't') || (code c == b' ')))

-- pc.lstrip('not ')
unfoldable pub lstrip_not : String → String
lstrip_not String.[] = ""
lstrip_not (String.◌∷◌ c s) =
    let rest = lstrip_not s in if is_strip_char c then rest else String.◌∷◌ c s

-- pc.startswith('not ')
abbrev starts_with_not : String → Bool
starts_with_not (String.◌∷◌ a (String.◌∷◌ b (String.◌∷◌ c (String.◌∷◌ d s)))) =
    ((code a == b'n') && (code b == b'o')) && ((code c == b't') && (code d == b' '))
starts_with_not _ = false

unfoldable pub pre_conditions_met : (String → Bool) → List String → Bool
pre_conditions_met evaluate [] = true
pre_conditions_met evaluate (pc ∷ pre_conditions) =
    (if starts_with_not pc then not (evaluate (lstrip_not pc)) else evaluate pc)
    && pre_conditions_met evaluate pre_conditions

abbrev pub negotiation_type_of : ProposalOriginatorEnum → NegotiationTypeEnum
negotiation_type_of consumer = request
negotiation_type_of provider = invitation
negotiation_type_of broker = brokered

abbrev is_initial : ProposalStatusEnum → Bool
is_initial initial = true
is_initial _ = false

abbrev pub new_negotiation : Proposal → NegotiationObject
new_negotiation sap = record {
  negotiation_type = negotiation_type_of sap.originator;
  negotiation_status = open_status;
  description = sap.description;
  reason = "";
  proposals = [];
}

-- create_negotiation, with the preconditions of each proposal type that has rules.
unfoldable pub create_negotiation :
    (String → Bool)
    → (String → List String)
    → Option Proposal
    → Result NegotiationError (NegotiationObject × List Effect)
create_negotiation evaluate pre_conditions none = err bad_request
create_negotiation evaluate pre_conditions (some sap) =
    if not (is_initial sap.proposal_status) || not (sap.sequence_num == 0)
    then err inconsistent
    else if not (sap.negotiation_id == "")
    then err inconsistent
    else if not (pre_conditions_met evaluate (pre_conditions sap.type_))
    then err bad_request
    else ok (
      new_negotiation sap,
      create_resource (new_negotiation sap)
          ∷ create_association sap.consumer_id
          ∷ create_association sap.provider_id
          ∷ (if sap.broker_id == "" then [] else create_association sap.broker_id ∷ []),
    )

abbrev last_proposal : List Proposal → Option Proposal
last_proposal [] = none
last_proposal (p ∷ []) = some p
last_proposal (p ∷ q ∷ ps) = last_proposal (q ∷ ps)

-- create_counter_proposal; none is the IndexError of a negotiation without proposals.
unfoldable pub create_counter_proposal :
    NegotiationObject → ProposalStatusEnum → ProposalOriginatorEnum → Option Proposal
create_counter_proposal neg status who = elim (last_proposal neg.proposals) [
  | none ↦ none
  | some sap ↦ some (record sap {
    sequence_num = sap.sequence_num + 1;
    proposal_status = status;
    originator = who;
  })
]
