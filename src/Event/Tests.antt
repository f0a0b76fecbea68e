-- ===== src/Event/Tests.antt =====
-- A subscription to resource events of one origin, and a life cycle event.
use scioncc.Prelude.{
  ℕ, ◌≡◌, ◌↔◌, refl, String, ◌==◌, nat_eq, string_eq, eq_iff, none, some, [], ◌∷◌, In, arith, false,
}
use scioncc.Topic.{split, get_all_matches}
use scioncc.Topic.Bindings.{add, built}
use scioncc.Event.{Event, Subscription, publisher_topic, subscriber_topic}
use scioncc.Event.Topics.{IsPlain, HasTokens, Wants}
use scioncc.Event.Wanted.{get_all_matches-Wants}

abbrev started : Event
started = record {
  base_types = "ResourceEvent" ∷ "Event" ∷ [];
  event_type = "ResourceLifecycleEvent";
  sub_type = some "";
  origin_type = none;
  origin = "r1";
}

abbrev resource_events : Subscription
resource_events = record {
  event_type = some "ResourceEvent";
  origin = some "r1";
  sub_type = none;
  origin_type = none;
}

topic_of_started : publisher_topic started ≡ "Event.ResourceEvent.ResourceLifecycleEvent._._.r1"
unfolding publisher_topic
topic_of_started = refl

topic_of_resource_events : subscriber_topic resource_events ≡ "#.ResourceEvent.#.*.#.*.r1"
unfolding subscriber_topic
topic_of_resource_events = refl

-- An object of the class Event itself has no base types, and its topic starts with an empty token.
topic_of_plain_event :
    publisher_topic (record started { base_types = []; event_type = "Event" }) ≡ ".Event._._.r1"
unfolding publisher_topic
topic_of_plain_event = refl

differ : (a b : String) → (a == b) ≡ false → ¬ (a ≡ b)
differ a b h e = ground (arith, eq_iff a b)

resource_events-IsPlain : IsPlain resource_events
unfolding split
resource_events-IsPlain = record {
  event_type = (refl, differ "ResourceEvent" "*" refl, differ "ResourceEvent" "#" refl);
  sub_type = tt;
  origin_type = tt;
  origin = (refl, differ "r1" "*" refl, differ "r1" "#" refl);
}

started-HasTokens : HasTokens started
unfolding split
started-HasTokens = record {
  base_types = (refl, (refl, tt));
  event_type = refl;
  sub_type = refl;
  origin_type = refl;
  origin = refl;
}

get_all_matches-Wants_example :
    In {A = ℕ} 5 (
      get_all_matches
        (built (add (subscriber_topic resource_events) 5 ∷ []))
        (publisher_topic started))
    ↔ Wants resource_events started
get_all_matches-Wants_example =
    get_all_matches-Wants resource_events started 5 resource_events-IsPlain started-HasTokens
