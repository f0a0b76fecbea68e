-- ===== src/Rpc/Replies.antt =====
-- src/pyon/net/endpoint.py: what ResponseEndpointUnit and RPCResponseEndpointUnit read from a request
-- and write into a reply. The texts of Python's own errors are shortened.
use scioncc.Prelude.{
  String, string_eq, Option, none, some, List, [], ◌∷◌, contains, Result, ok, err, if◌then◌else◌,
}
use scioncc.Prelude.Int.{ℤ, pos, increment}
use scioncc.Prelude.Text.{concat}
use scioncc.Prelude.Dict
use scioncc.Exceptions.{Raised, ion, python, bad_request, construct, status_code}
use scioncc.Rpc.{
  Value, text, num, Headers, Message, object, dict, stacks_body, nothing, value, empty_text,
  EndpointUnit,
}

-- A header, or a text where it is not set.
abbrev pub header_or : Headers → String → String → Value
header_or headers k other = elim (Dict.get headers k) [ some v ↦ v | none ↦ text other ]

-- `"%s (%s)" % (message, type)`
abbrev pub described : String → String → String
described message type_text = concat message (concat " (" (concat type_text ")"))

abbrev pub failure : ℤ → String → String → Headers
failure code msg exc_id =
    ("status_code", num code)
    ∷ ("error_message", text msg)
    ∷ ("error_id", text exc_id)
    ∷ ("performative", text "failure")
    ∷ []

-- `x or ""`
abbrev pub text_of_id : Option String → String
text_of_id none = ""
text_of_id (some exc_id) = exc_id

module _ {Stack : Type 0} where
  -- `_create_error_response(ex)`, for texts that `str` returns as they are: one with other characters
  -- than those of ASCII makes it raise.
  unfoldable pub create_error_response : Raised Stack → Headers
  create_error_response (ion ex) = failure (status_code ex.class) ex.message (text_of_id ex.exc_id)
  create_error_response (python type_text message) =
      failure (pos 500) (described message type_text) ""

module _ {Stack V : Type 0} where
  -- The body of an error response.
  unfoldable pub error_body : Raised Stack → Message Stack V
  error_body (ion ex) = stacks_body ex.stacks
  error_body (python type_text message) = empty_text

-- The first argument that the method does not take.
unfoldable pub unknown_arg : Option (List String) → List String → Option String
unfolding contains
unknown_arg none names = none
unknown_arg (some args) [] = none
unknown_arg (some args) (name ∷ names) =
    if contains args name then unknown_arg (some args) names else some name

module _ {Stack : Type 0} where
  -- `headers.get('conv-seq', 1) + 1`
  unfoldable pub next_seq : Option Value → Result (Raised Stack) Value
  next_seq none = ok (num (pos 2))
  next_seq (some (num n)) = ok (num (increment n))
  next_seq (some (text t)) = err (python "TypeError" "cannot concatenate 'str' and 'int' objects")

  -- The headers that every reply takes over from the request.
  unfoldable pub propagate : Headers → Headers → Result (Raised Stack) Headers
  unfolding next_seq Dict.put
  propagate headers response = elim (next_seq (Dict.get headers "conv-seq")) [
    | err e ↦ err e
    | ok seq ↦ ok (
        Dict.put
          (Dict.put (Dict.put response "protocol" (header_or headers "protocol" "")) "conv-id"
            (header_or headers "conv-id" ""))
          "conv-seq" seq)
  ]

module _ {Stack V : Type 0} (unit : EndpointUnit Stack V) where
  -- `ResponseEndpointUnit._build_header`
  unfoldable pub build_header : Message Stack V → Headers
  build_header raw_msg =
      ("ts", text (unit.numerals.text_of unit.ts))
      ∷ ("performative", text "inform-result")
      ∷ ("language", text "scioncc")
      ∷ ("encoding", text "msgpack")
      ∷ ("format", text (unit.type_name raw_msg))
      ∷ elim unit.send_name [ some receiver ↦ ("receiver", text receiver) ∷ [] | none ↦ [] ]

  -- `int(headers[k])`
  unfoldable pub read_int : Value → Result (Raised Stack) ℤ
  read_int (num n) = ok n
  read_int (text t) = elim (unit.numerals.int_of t) [
    | some n ↦ ok n
    | none ↦ err (python "ValueError" "invalid literal for int()")
  ]

  -- `_calculate_timeout`. What it computes is not used by `_make_routing_call`, but it raises where
  -- one of the two headers is no number.
  unfoldable pub calculate_timeout : Headers → Result (Raised Stack) (Unit {0})
  unfolding read_int
  calculate_timeout headers = elim (Dict.get headers "ts") [
    | none ↦ ok tt
    | some ts ↦ elim (Dict.get headers "reply-by") [
      | none ↦ ok tt
      | some reply_by ↦ elim (read_int ts) [
        | err e ↦ err e
        | ok _ ↦ elim (read_int reply_by) [ err e ↦ err e | ok _ ↦ ok tt ]
      ]
    ]
  ]

  abbrev unknown_type : Message Stack V → Result (Raised Stack) (Dict.Dict String V)
  unknown_type msg = err (
      ion (
        construct unit.here bad_request
          (concat "Unknown message type, cannot convert into kwarg dict: " (unit.type_text msg))))

  -- The body as keyword arguments.
  unfoldable pub kwargs_of : Message Stack V → Result (Raised Stack) (Dict.Dict String V)
  kwargs_of (object d) = ok d
  kwargs_of (dict d) = ok d
  kwargs_of (stacks_body s) = unknown_type (stacks_body s)
  kwargs_of nothing = unknown_type nothing
  kwargs_of (value v) = unknown_type (value v)
  kwargs_of empty_text = unknown_type empty_text

  -- The response to what `message_received` returns or raises.
  unfoldable pub respond :
      Result (Raised Stack) (Message Stack V × Headers) → Message Stack V × Headers
  unfolding create_error_response error_body Dict.put
  respond (ok (result, headers)) =
      (result, ("msg-rcvd", text (unit.numerals.text_of unit.ts)) ∷ headers)
  respond (err ex) = (error_body ex, create_error_response ex)

  -- `"%s" % headers.get('conv-id')`
  abbrev pub conv_text : Option Value → String
  conv_text none = "None"
  conv_text (some (text t)) = t
  conv_text (some (num n)) = unit.numerals.text_of n
