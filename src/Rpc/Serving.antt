-- ===== src/Rpc/Serving.antt =====
-- The server's side of a call that it can read: the operation is called once and its outcome sent.
use scioncc.Prelude.{
  ◌≡◌, refl, ℕ, String, string_eq, option_eq, Option, none, some, and_then, [], ◌∷◌, ◌++◌, Result,
  ok, err,
}
use scioncc.Prelude.Int.{pos, int_eq}
use scioncc.Prelude.Dict
use scioncc.Exceptions.{Raised}
use scioncc.Rpc.{Value, text, num, Headers, Message, EndpointUnit}
use scioncc.Rpc.Replies.{
  build_header, respond, propagate, calculate_timeout, header_or, kwargs_of, unknown_arg,
}
use scioncc.Rpc.Server.{
  Operation, Server, message_received, find_op, invoke, send, send_or_error, conclude, handle,
  route, intercept_in, receive,
}
use scioncc.Rpc.Requests.{IsTransparent, IsRequest}

module _ {Stack V : Type 0} where
  abbrev pub with_status : Message Stack V → Message Stack V × Headers
  with_status m = (m, ("status_code", num (pos 200)) ∷ ("error_message", text "") ∷ [])

  abbrev pub mapped :
      Result (Raised Stack) (Message Stack V) → Result (Raised Stack) (Message Stack V × Headers)
  mapped (ok m) = ok (with_status m)
  mapped (err e) = err e

-- The headers of the reply to a request of a conversation, and the reply.
abbrev pub answer_headers : Value → Headers → Headers → Headers
answer_headers conv_id h response =
    Dict.put (Dict.put (Dict.put response "protocol" (header_or h "protocol" "")) "conv-id" conv_id)
      "conv-seq" (num (pos 2))

module _ {Stack V : Type 0} (server : EndpointUnit Stack V) where
  -- The reply to what `message_received` returns or raises.
  abbrev pub reply_of :
      Value
      → Headers
      → Result (Raised Stack) (Message Stack V × Headers)
      → Message Stack V × Headers
  reply_of conv_id h r =
      let (body, response) = respond server r in
      (body, Dict.update (build_header server body) (answer_headers conv_id h response))

  abbrev pub reply_to :
      Value → Headers → Result (Raised Stack) (Message Stack V) → Message Stack V × Headers
  reply_to conv_id h r = reply_of conv_id h (mapped r)

module _ {Stack V W : Type 0} (server : EndpointUnit Stack V)
    (routing_obj : String → Option (Operation Stack V W)) where
  and_then-with_status :
      (r : Result (Raised Stack) (Message Stack V)) (s : Server Stack V W)
      → and_then (r, s) (λ m s'. (ok (with_status m), s')) ≡ (mapped r, s)
  and_then-with_status (ok m) s = refl
  and_then-with_status (err e) s = refl

  pub readable :
      (op : String) (conv_id : Value) (h : Headers)
      → IsRequest server.numerals op conv_id h
      → calculate_timeout server h ≡ ok tt
  unfolding calculate_timeout
  readable op conv_id h q =
      rw
        (
          calculate_timeout,
          header_or,
          q.has_ts,
          q.has_reply_by,
          server.numerals.int_of-text_of q.ts,
          server.numerals.int_of-text_of q.reply_by,
        )
        refl

  -- The operation is called with the arguments, once.
  received-call :
      (op : String) (conv_id : Value) (h : Headers) (msg : Message Stack V) (d : Dict.Dict String V)
      (o : Operation Stack V W) (s : Server Stack V W)
      → IsRequest server.numerals op conv_id h
      → routing_obj op ≡ some o
      → kwargs_of server msg ≡ ok d
      → unknown_arg o.args (Dict.keys d) ≡ none
      → message_received server routing_obj msg h s
        ≡ (mapped (o.call d s.world).0, record s { world = (o.call d s.world).1 })
  unfolding message_received find_op invoke
  received-call op conv_id h msg d o s q r k u =
      rw (readable op conv_id h q, k, q.has_op, find_op, r, invoke, u)
        (and_then-with_status (o.call d s.world).0 (record s { world = (o.call d s.world).1 }))

  propagate-request :
      (op : String) (conv_id : Value) (h response : Headers)
      → IsRequest server.numerals op conv_id h
      → propagate {Stack = Stack} h response ≡ ok (answer_headers conv_id h response)
  unfolding propagate
  propagate-request op conv_id h response q = rw (propagate, q.has_seq, header_or, q.has_conv) refl

  send-transparent :
      (body : Message Stack V) (h : Headers) (s : Server Stack V W)
      → IsTransparent server
      → send server body h s ≡ (
        ok tt,
        record s { sent = s.sent ++ (body, Dict.update (build_header server body) h) ∷ [] },
      )
  unfolding send
  send-transparent body h s t =
      rw (t.outgoing (body, Dict.update (build_header server body) h)) refl

  -- Sending it.
  concluded :
      (op : String) (conv_id : Value) (h : Headers)
      (r : Result (Raised Stack) (Message Stack V × Headers)) (s : Server Stack V W)
      → IsTransparent server
      → IsRequest server.numerals op conv_id h
      → conclude server routing_obj h (r, s)
        ≡ (ok tt, record s { sent = s.sent ++ reply_of server conv_id h r ∷ [] })
  unfolding conclude send_or_error
  concluded op conv_id h r s t q =
      let (body, response) = respond server r in
      rw
        (
          propagate-request op conv_id h response q,
          send-transparent body (answer_headers conv_id h response) s t,
        )
        refl

  -- One message of the listening loop, by what `message_received` makes of it.
  pub receive-concluded :
      (op : String) (conv_id : Value) (h : Headers) (msg : Message Stack V)
      (r : Result (Raised Stack) (Message Stack V × Headers)) (w : W) (s : Server Stack V W)
      (tag : ℕ)
      → IsTransparent server
      → IsRequest server.numerals op conv_id h
      → message_received server routing_obj msg h s ≡ (r, record s { world = w })
      → receive server routing_obj ((msg, h), tag) s ≡ (
        ok tt,
        record s {
          world = w;
          sent = s.sent ++ reply_of server conv_id h r ∷ [];
          acked = s.acked ++ tag ∷ [];
        },
      )
  unfolding receive intercept_in route handle
  receive-concluded op conv_id h msg r w s tag t q e =
      rw
        (
          receive,
          intercept_in,
          t.incoming (msg, h),
          route,
          handle,
          e,
          concluded op conv_id h r (record s { world = w }) t q,
        )
        refl

  -- One message with a call that the operation takes.
  pub received :
      (op : String) (conv_id : Value) (h : Headers) (msg : Message Stack V) (d : Dict.Dict String V)
      (o : Operation Stack V W) (s : Server Stack V W) (tag : ℕ)
      → IsTransparent server
      → IsRequest server.numerals op conv_id h
      → routing_obj op ≡ some o
      → kwargs_of server msg ≡ ok d
      → unknown_arg o.args (Dict.keys d) ≡ none
      → receive server routing_obj ((msg, h), tag) s ≡ (
        ok tt,
        record s {
          world = (o.call d s.world).1;
          sent = s.sent ++ reply_to server conv_id h (o.call d s.world).0 ∷ [];
          acked = s.acked ++ tag ∷ [];
        },
      )
  received op conv_id h msg d o s tag t q r k u =
      receive-concluded op conv_id h msg (mapped (o.call d s.world).0) (o.call d s.world).1 s tag t
        q (received-call op conv_id h msg d o s q r k u)
