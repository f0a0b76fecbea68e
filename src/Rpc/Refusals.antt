-- ===== src/Rpc/Refusals.antt =====
-- The calls that the server refuses before it calls an operation, and what their callers get.
use mathlib.Core.Path.{subst}
use scioncc.Prelude.{
  ◌≡◌, ◌≢◌, refl, sym, ℕ, String, string_eq, option_eq, Option, none, some, List, [], ◌∷◌, ◌++◌,
  map, Result, ok, err, arith,
}
use scioncc.Prelude.Int.{pos, int_eq}
use scioncc.Prelude.Text.{concat}
use scioncc.Prelude.Dict
use scioncc.Exceptions.{
  timeout, construct, IonException, Label, create_exception, Raised, ion, bad_request, server_error,
  status_code,
}
use scioncc.Exceptions.Codes.{class_of-status_code}
use scioncc.Rpc.{Value, value_eq, text, num, Headers, Message, object, dict, nothing, EndpointUnit}
use scioncc.Rpc.Replies.{
  failure, create_error_response, error_body, respond, kwargs_of, unknown_arg,
}
use scioncc.Rpc.Server.{Operation, Server, message_received, find_op, invoke, receive}
use scioncc.Rpc.Client.{decoded, Received, call_label, remote_stacks, decode, await_reply, outgoing}
use scioncc.Rpc.Serving.{reply_of, readable, receive-concluded}
use scioncc.Rpc.Responses.{IsNoise, get_response-reply}
use scioncc.Rpc.RoundTrip.{reply-header, reply_of-conv, failed}
use scioncc.Rpc.Requests.{
  IsRequest-put, IsTransparent, IsPlain, IsRequest, conv_of, wanted, outgoing-wanted,
  wanted-IsRequest,
}

module _ {Stack V : Type 0} where
  -- The caller raises BadRequest with the text of the refusal.
  abbrev pub IsBadRequest : String → Result (Raised Stack) (Message Stack V) → Type 0
  IsBadRequest why r =
      (e : IonException Stack) × (r ≡ err (ion e))
      × (e.class ≡ bad_request)
      × (e.message ≡ why)
      × (e.exc_id ≡ none)

unknown_kwargs :
    {Stack V : Type 0} (server : EndpointUnit Stack V) (msg : Message Stack V)
    → ((d : Dict.Dict String V) → msg ≢ object d)
    → ((d : Dict.Dict String V) → msg ≢ dict d)
    → kwargs_of server msg
      ≡ err (
          ion (
            construct server.here bad_request (
              concat "Unknown message type, cannot convert into kwarg dict: "
                (server.type_text msg))))
unfolding kwargs_of
unknown_kwargs server (object d) no_object no_dict = absurd (no_object d refl)
unknown_kwargs server (dict d) no_object no_dict = absurd (no_dict d refl)
unknown_kwargs server _ no_object no_dict = refl

module _ {Stack V W : Type 0} (server : EndpointUnit Stack V)
    (routing_obj : String → Option (Operation Stack V W)) (op : String)
    (msg : Message Stack V) where
  -- Why a call is refused, with the text of the refusal.
  pub data Refused : String → Type 0 where
    unknown_type :
        ((d : Dict.Dict String V) → msg ≢ object d)
        → ((d : Dict.Dict String V) → msg ≢ dict d)
        → Refused
            (concat "Unknown message type, cannot convert into kwarg dict: " (server.type_text msg))
    unknown_op :
        {d : Dict.Dict String V}
        → kwargs_of server msg ≡ ok d
        → routing_obj op ≡ none
        → Refused (concat "Unknown op name: " op)
    unknown_argument :
        {d : Dict.Dict String V} {o : Operation Stack V W} {name : String}
        → kwargs_of server msg ≡ ok d
        → routing_obj op ≡ some o
        → unknown_arg o.args (Dict.keys d) ≡ some name
        → Refused (concat "Argument " (concat name " not present in op signature"))

  -- An exception, or the failure that the server builds itself.
  data Refusal (why : String) : Result (Raised Stack) (Message Stack V × Headers) → Type 0 where
    raised : Refusal why (err (ion (construct server.here bad_request why)))
    built : Refusal why (ok (nothing, failure (pos 400) why ""))

  refused :
      {why : String} (conv_id : Value) (h : Headers) (s : Server Stack V W)
      → IsRequest server.numerals op conv_id h
      → Refused why
      → (r : Result (Raised Stack) (Message Stack V × Headers)) × Refusal why r
        × (message_received server routing_obj msg h s ≡ (r, s))
  unfolding message_received find_op invoke
  refused conv_id h s q (unknown_type no_object no_dict) =
      let k = unknown_kwargs server msg no_object no_dict in
      (_, raised, rw (readable server routing_obj op conv_id h q, k) refl)
  refused conv_id h s q (unknown_op k r) =
      (_, raised, rw (readable server routing_obj op conv_id h q, k, q.has_op, find_op, r) refl)
  refused conv_id h s q (unknown_argument k r u) = (
    _,
    built,
    rw (readable server routing_obj op conv_id h q, k, q.has_op, find_op, r, invoke, u) refl,
  )

module _ {Stack V W : Type 0} (server client : EndpointUnit Stack V)
    (routing_obj : String → Option (Operation Stack V W)) (op : String) (msg : Message Stack V)
    (conv_id : Value) (h : Headers) where
  -- Whatever the body, the headers of the reply decide.
  decode-BadRequest :
      (sent_headers : Headers) (why : String)
      (r : Result (Raised Stack) (Message Stack V × Headers)) (stacks : List (Label × Stack))
      → Dict.get (reply_of server conv_id h r).1 "status_code" ≡ some (num (pos 400))
      → Dict.get (reply_of server conv_id h r).1 "error_message" ≡ some (text why)
      → Dict.get (reply_of server conv_id h r).1 "error_id" ≡ some (text "")
      → remote_stacks (call_label client sent_headers) (reply_of server conv_id h r).0 ≡ ok stacks
      → IsBadRequest why (
          decode client sent_headers
            (reply_of server conv_id h r).0
            (reply_of server conv_id h r).1)
  unfolding create_exception status_code
  decode-BadRequest sent_headers why r stacks st m i rs = (
    create_exception client.here (pos 400) why "" stacks,
    failed server client conv_id h sent_headers (reply_of server conv_id h r).1
        (reply_of server conv_id h r).0 (pos 400) why "" stacks st (λ e. ground arith) m i rs,
    class_of-status_code server_error bad_request (λ e. ground arith),
    refl,
    refl,
  )

  decode-refusal :
      (sent_headers : Headers) (why : String)
      (r : Result (Raised Stack) (Message Stack V × Headers))
      → Refusal server routing_obj op msg why r
      → IsBadRequest why (
          decode client sent_headers
            (reply_of server conv_id h r).0
            (reply_of server conv_id h r).1)
  unfolding Dict.get Dict.put respond create_error_response error_body construct status_code
      remote_stacks
  decode-refusal sent_headers why r raised =
      let header = reply-header server client conv_id h r in
      decode-BadRequest sent_headers why r _ (header "status_code") (header "error_message")
        (header "error_id") refl
  decode-refusal sent_headers why r built =
      let header = reply-header server client conv_id h r in
      decode-BadRequest sent_headers why r [] (header "status_code") (header "error_message")
        (header "error_id") refl

-- A call over transparent interceptors whose message is no keyword arguments, whose operation the
-- server does not have or does not take with such an argument: no operation is called and the world
-- stays as it is, the request is acknowledged and one reply sent, and the caller, who skips what
-- belongs to other conversations, gets BadRequest with the text that says why, and acknowledges what
-- it read and no more.
pub await_reply-Refused :
    {Stack V W : Type 0} (client server : EndpointUnit Stack V)
    (routing_obj : String → Option (Operation Stack V W)) (s : Server Stack V W)
    (new_conv_id late op why : String) (timeout_ms tag reply_tag : ℕ) (msg : Message Stack V)
    (raw : Headers) (reply_to_name : Value) (noise more : List (Received Stack V))
    → IsTransparent client
    → IsTransparent server
    → server.numerals ≡ client.numerals
    → IsPlain raw
    → Refused server routing_obj op msg why
    → IsNoise client (conv_of new_conv_id raw) noise
    → (h : Headers) × (reply : Message Stack V × Headers) × (outgoing client new_conv_id timeout_ms
          op msg raw
        ≡ ok (msg, h))
      × (receive server routing_obj ((msg, Dict.put h "reply-to" reply_to_name), tag) s
          ≡ (ok tt, record s { sent = s.sent ++ reply ∷ []; acked = s.acked ++ tag ∷ [] }))
      × IsBadRequest why (await_reply client late h h (noise ++ (reply, reply_tag) ∷ more)).0
      × ((await_reply client late h h (noise ++ (reply, reply_tag) ∷ more)).1
          ≡ map (λ r. r.1) noise ++ reply_tag ∷ [])
unfolding await_reply decoded
await_reply-Refused client server routing_obj s new_conv_id late op why timeout_ms tag reply_tag msg
      raw reply_to_name noise more ct st n p refusal quiet =
    let conv_id = conv_of new_conv_id raw in
    let h = wanted client new_conv_id timeout_ms op msg raw in
    let q = wanted-IsRequest client new_conv_id timeout_ms op msg raw p in
    let h' = Dict.put h "reply-to" reply_to_name in
    let q' =
      subst (λ m. IsRequest m op conv_id h') (sym n)
        (IsRequest-put client.numerals op conv_id h reply_to_name q) in
    let (r, shape, e) = refused server routing_obj op msg conv_id h' s q' refusal in
    let reply = reply_of server conv_id h' r in
    let got =
      get_response-reply client (ion (construct client.here timeout late)) conv_id noise reply
        reply_tag more quiet (ct.incoming reply) (reply_of-conv server client conv_id h' r) in
    (
      h,
      reply,
      outgoing-wanted client new_conv_id timeout_ms op msg raw ct p,
      receive-concluded server routing_obj op conv_id h' msg r s.world s tag st q' e,
      rw (await_reply, q.has_conv, got)
          (decode-refusal server client routing_obj op msg conv_id h' h why r shape),
      rw (await_reply, q.has_conv, got) refl,
    )
