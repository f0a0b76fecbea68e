-- ===== src/Event.antt =====
-- src/pyon/ion/event.py: the topics by which events are published and subscribed to.
pub mod Tokens
pub mod Topics
mod Rest
pub mod Matched
pub mod Wanted
mod Tests
use mathlib.Core.List.{reverse}
use scioncc.Prelude.{
  String, Bool, true, false, Option, none, some, List, [], ◌∷◌, ◌==◌, string_eq, if◌then◌else◌,
}
use scioncc.Prelude.Text.{concat}

-- The fields of an event object that its topic shows. `base_types` are the classes that its type
-- extends, the nearest first.
pub record Event : Type 0 where
  pub base_types : List String
  pub event_type : String
  pub sub_type : Option String
  pub origin_type : Option String
  pub origin : String

-- The arguments of a subscription.
pub record Subscription : Type 0 where
  pub event_type : Option String
  pub origin : Option String
  pub sub_type : Option String
  pub origin_type : Option String

-- `a.b`
unfoldable pub dotted : String → String → String
unfolding concat
dotted a b = concat a (concat "." b)

-- `".".join(xs)`
unfoldable pub join : List String → String
unfolding dotted
join [] = ""
join (x ∷ []) = x
join (x ∷ y ∷ more) = dotted x (join (y ∷ more))

-- `x or other`
abbrev pub or_text : Option String → String → String
or_text none other = other
or_text (some s) other = if s == "" then other else s

-- `EventPublisher._topic`
unfoldable pub publisher_topic : Event → String
unfolding dotted join
publisher_topic event_object = dotted (join (reverse event_object.base_types)) (
    dotted event_object.event_type (
      dotted (or_text event_object.sub_type "_")
        (dotted (or_text event_object.origin_type "_") event_object.origin)))

unfoldable pub type_binding : Option String → String
unfolding dotted
type_binding none = "#"
type_binding (some event_type) =
    if event_type == "Event"
    then "Event.#"
    else if event_type == ""
    then "#"
    else dotted "#" (dotted event_type "#")

-- `BaseEventSubscriberMixin._topic`
unfoldable pub subscriber_topic : Subscription → String
unfolding dotted type_binding
subscriber_topic s =
    dotted (type_binding s.event_type) (
      dotted (or_text s.sub_type "*.#") (dotted (or_text s.origin_type "*") (or_text s.origin "*")))
