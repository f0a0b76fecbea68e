-- ===== src/Rpc/Client.antt =====
-- src/pyon/net/endpoint.py: RequestEndpointUnit, RPCRequestEndpointUnit and RPCClient.request, the
-- caller's side of a remote procedure call. What is received within the timeout is a list.
use scioncc.Prelude.{
  String, ◌==◌, string_eq, option_eq, Option, none, some, List, [], ◌∷◌, Result, ok, err,
  if◌then◌else◌, ℕ, zero, suc,
}
use scioncc.Prelude.Int.{ℤ, pos, int_eq, increment}
use scioncc.Prelude.Text.{concat}
use scioncc.Prelude.Dict
use scioncc.Exceptions.{Label, label, Raised, ion, python, timeout, construct, create_exception}
use scioncc.Rpc.{
  Value, value_eq, text, num, Headers, Message, object, dict, stacks_body, nothing, value,
  empty_text, process_interceptors, EndpointUnit,
}
use scioncc.Rpc.Replies.{read_int}

-- A received message with its delivery tag.
abbrev pub Received : Type 0 → Type 0 → Type 0
Received Stack V = (Message Stack V × Headers) × ℕ

-- What a wait for the response ends with, and the tags that were acknowledged.
abbrev pub Waited : Type 0 → Type 0 → Type 0
Waited Stack V = Result (Raised Stack) (Message Stack V × Headers) × List ℕ

module _ {Stack V : Type 0} where
  abbrev pub also_acked : ℕ → Waited Stack V → Waited Stack V
  also_acked tag w = (w.0, tag ∷ w.1)

  -- The received message ends the loop, or it goes on.
  unfoldable pub settle :
      Value
      → ℕ
      → Result (Raised Stack) (Message Stack V × Headers)
      → Waited Stack V
      → Waited Stack V
  settle conv_id tag (err e) rest = (err e, tag ∷ [])
  settle conv_id tag (ok (nm, nh)) rest =
      if Dict.get nh "conv-id" == some conv_id then (ok (nm, nh), tag ∷ []) else also_acked tag rest

module _ {Stack : Type 0} where
  -- `stacks[0] = (new_label, top_stack)`
  abbrev relabel : Label → List (Label × Stack) → List (Label × Stack)
  relabel new_label [] = []
  relabel new_label ((_, top_stack) ∷ stacks) = (new_label, top_stack) ∷ stacks

module _ {Stack V : Type 0} where
  -- The stacks of an error response, the first under a label that shows the call. An empty list has no
  -- first stack to take.
  unfoldable pub remote_stacks :
      Label → Message Stack V → Result (Raised Stack) (List (Label × Stack))
  remote_stacks new_label (stacks_body []) = err (python "IndexError" "list index out of range")
  remote_stacks new_label (stacks_body (s ∷ stacks)) = ok (relabel new_label (s ∷ stacks))
  remote_stacks new_label (object d) = ok []
  remote_stacks new_label (dict d) = ok []
  remote_stacks new_label nothing = ok []
  remote_stacks new_label (value v) = ok []
  remote_stacks new_label empty_text = ok []

-- i + n
abbrev pub plus : ℤ → ℕ → ℤ
plus i zero = i
plus i (suc n) = increment (plus i n)

module _ {Stack V : Type 0} (unit : EndpointUnit Stack V) where
  -- The loop of `_get_response`, with the exception `late` when the timeout is over.
  unfoldable pub get_response : Raised Stack → Value → List (Received Stack V) → Waited Stack V
  unfolding process_interceptors settle Dict.get
  get_response late conv_id [] = (err late, [])
  get_response late conv_id ((m, tag) ∷ more) =
      settle conv_id tag (process_interceptors unit.message_incoming m)
        (get_response late conv_id more)

  -- `RPCRequestEndpointUnit._build_header`, where `new_conv_id` is what `_build_conv_id` returns.
  unfoldable pub build_request : String → Message Stack V → Headers → Headers
  unfolding Dict.get
  build_request new_conv_id raw_msg raw_headers =
      ("ts", text (unit.numerals.text_of unit.ts))
      ∷ ("performative", text "request")
      ∷ ("protocol", text "rpc")
      ∷ ("language", text "scioncc")
      ∷ ("encoding", text "msgpack")
      ∷ ("format", text (unit.type_name raw_msg))
      ∷ ("reply-by", text "todo")
      ∷ ("conv-id", elim (Dict.get raw_headers "conv-id") [ some v ↦ v | none ↦ text new_conv_id ])
      ∷ ("conv-seq", elim (Dict.get raw_headers "conv-seq") [ some v ↦ v | none ↦ num (pos 1) ])
      ∷ elim unit.send_name [ some receiver ↦ ("receiver", text receiver) ∷ [] | none ↦ [] ]

  -- What `send` puts together before the interceptors: the built headers, under those of the caller,
  -- and the time by which a reply is wanted.
  unfoldable pub request_headers :
      String → ℕ → Message Stack V → Headers → Result (Raised Stack) Headers
  unfolding build_request read_int Dict.put Dict.update
  request_headers new_conv_id timeout_ms msg headers =
      let built = Dict.update (build_request new_conv_id msg headers) headers in
      elim (Dict.get built "ts") [
        | none ↦ err (python "KeyError" "ts")
        | some ts ↦ elim (read_int unit ts) [
          | err e ↦ err e
          | ok n ↦ ok (Dict.put built "reply-by" (text (unit.numerals.text_of (plus n timeout_ms))))
        ]
      ]

  -- What is sent for `request(msg, headers, op, timeout)`.
  unfoldable pub outgoing :
      String
      → ℕ
      → String
      → Message Stack V
      → Headers
      → Result (Raised Stack) (Message Stack V × Headers)
  unfolding request_headers process_interceptors Dict.put
  outgoing new_conv_id timeout_ms op msg headers =
      elim (request_headers new_conv_id timeout_ms msg (Dict.put headers "op" (text op))) [
        | err e ↦ err e
        | ok h ↦ process_interceptors unit.message_outgoing (msg, h)
      ]

  -- The text of a header's value, and the number that a status code is.
  abbrev text_of_value : Value → String
  text_of_value (text t) = t
  text_of_value (num n) = unit.numerals.text_of n

  abbrev code_of : Value → ℤ
  code_of (num n) = n
  code_of (text t) = elim (unit.numerals.int_of t) [ some n ↦ n | none ↦ pos 0 ]

  abbrev receiver_text : Option Value → String
  receiver_text none = "?"
  receiver_text (some v) = text_of_value v

  abbrev error_id_of : Option Value → String
  error_id_of none = ""
  error_id_of (some v) = text_of_value v

  -- `'in remote call to %s' % (headers.get('receiver', '?'))`
  abbrev pub call_label : Headers → Label
  call_label headers =
      label (concat "in remote call to " (receiver_text (Dict.get headers "receiver")))

  -- The exception for an error response.
  unfoldable pub remote_error : Headers → Message Stack V → Headers → Value → Raised Stack
  unfolding remote_stacks create_exception Dict.get
  remote_error headers res res_headers code = elim (remote_stacks (call_label headers) res) [
    | err e ↦ e
    | ok stacks ↦ elim (Dict.get res_headers "error_message") [
      | none ↦ python "KeyError" "error_message"
      | some msg ↦ ion (
          create_exception unit.here (code_of code) (text_of_value msg)
            (error_id_of (Dict.get res_headers "error_id")) stacks)
    ]
  ]

  -- `RPCRequestEndpointUnit._send`, behind the call of the base class.
  unfoldable pub decode :
      Headers → Message Stack V → Headers → Result (Raised Stack) (Message Stack V)
  unfolding remote_error
  decode headers res res_headers = elim (Dict.get res_headers "status_code") [
    | none ↦ err (python "KeyError" "status_code")
    | some code ↦
        if code == num (pos 200) then ok res else err (remote_error headers res res_headers code)
  ]

  unfoldable pub decoded :
      Headers
      → Result (Raised Stack) (Message Stack V × Headers)
      → Result (Raised Stack) (Message Stack V)
  unfolding decode
  decoded headers (err e) = err e
  decoded headers (ok (res, res_headers)) = decode headers res res_headers

  -- What the caller gets, and the tags that are acknowledged, of the messages that are received within
  -- the timeout after a message with `headers` went out with `sent_headers`.
  unfoldable pub await_reply :
      String
      → Headers
      → Headers
      → List (Received Stack V)
      → Result (Raised Stack) (Message Stack V) × List ℕ
  unfolding get_response decoded
  await_reply late headers sent_headers received = elim (Dict.get sent_headers "conv-id") [
    | none ↦ (err (python "KeyError" "conv-id"), [])
    | some conv_id ↦
        let (r, tags) = get_response (ion (construct unit.here timeout late)) conv_id received in
        (decoded headers r, tags)
  ]
