-- ===== src/Rpc.antt =====
-- src/pyon/net/endpoint.py: remote procedure calls. This module has what both sides share: headers,
-- message bodies, interceptors (src/pyon/core/interceptor/interceptor.py, `process_interceptors`) and
-- the settings of an endpoint unit. Rpc/Server.antt has the response side, Rpc/Client.antt the
-- request side.
pub mod Replies
pub mod Server
pub mod Client
pub mod Responses
pub mod Requests
pub mod Serving
pub mod RoundTrip
pub mod Refusals
mod Tests
use scioncc.Prelude.{
  String, Bool, true, false, ◌==◌, ◌≡◌, ◌↔◌, refl, string_eq, Option, none, some, List, [], ◌∷◌,
  Result, ok, err, Eq, eq_iff, arith,
}
use scioncc.Prelude.Int.{ℤ, int_eq}
use scioncc.Prelude.Dict
use scioncc.Exceptions.{Label, Raised, python}

-- The value of a header.
pub data Value : Type 0 where
  text : String → Value
  num : ℤ → Value

abbrev value_beq : Value → Value → Bool
value_beq (text a) (text b) = a == b
value_beq (text a) (num b) = false
value_beq (num a) (text b) = false
value_beq (num a) (num b) = a == b

pub value_beq_iff : (a b : Value) → (value_beq a b ≡ true) ↔ (a ≡ b)
value_beq_iff (text a) (text b) = ground (arith, eq_iff a b)
value_beq_iff (text a) (num b) = (λ h. cc, λ h. cc)
value_beq_iff (num a) (text b) = (λ h. cc, λ h. cc)
value_beq_iff (num a) (num b) = ground (arith, eq_iff a b)

instance abbrev pub value_eq : Eq Value
value_eq = record { equal = value_beq; agrees = value_beq_iff }

abbrev pub Headers : Type 0
Headers = Dict.Dict String Value

-- Python's `int(...)` and `str(...)`, of which the program relies on `int(str(n)) == n`.
pub record Numerals : Type 0 where
  pub int_of : String → Option ℤ
  pub text_of : ℤ → String
  pub int_of-text_of : (n : ℤ) → int_of (text_of n) ≡ some n

module _ (Stack V : Type 0) where
  -- A body: an object with attributes, a dict, the stacks of an exception, None or another value.
  pub data Message : Type 0 where
    object : Dict.Dict String V → Message
    dict : Dict.Dict String V → Message
    stacks_body : List (Label × Stack) → Message
    nothing : Message
    value : V → Message
    empty_text : Message

abbrev pub Interceptor : Type 0 → Type 0 → Type 0
Interceptor Stack V = Message Stack V × Headers → Result (Raised Stack) (Message Stack V × Headers)

-- `process_interceptors`
module _ {A E : Type 0} where
  unfoldable pub process_interceptors : List (A → Result E A) → A → Result E A
  process_interceptors [] invocation = ok invocation
  process_interceptors (interceptor ∷ more) invocation = elim (interceptor invocation) [
    | err e ↦ err e
    | ok next ↦ process_interceptors more next
  ]

-- What an endpoint unit reads besides the message: its interceptors, the clock's text, the name that
-- it sends to, the name of a body's class and the text of its type, and the trace where it raises.
pub record EndpointUnit (Stack V : Type 0) : Type 0 where
  pub message_incoming : List (Interceptor Stack V)
  pub message_outgoing : List (Interceptor Stack V)
  pub ts : ℤ
  pub send_name : Option String
  pub type_name : Message Stack V → String
  pub type_text : Message Stack V → String
  pub here : Stack
  pub numerals : Numerals
