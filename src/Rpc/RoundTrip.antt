-- ===== src/Rpc/RoundTrip.antt =====
-- A call from the caller's request to what it gets back, over a server with one operation under way.
use mathlib.Core.Path.{subst}
use scioncc.Prelude.{
  ◌≡◌, ◌≢◌, refl, ap, sym, ℕ, String, false, ◌==◌, string_eq, option_eq, Option, none, some,
  is_some, if◌then◌else◌, Eq, List, [], ◌∷◌, ◌++◌, map, Result, ok, err, arith, eq_iff,
}
use scioncc.Prelude.Int.{ℤ, pos, int_eq}
use scioncc.Prelude.Dict
use scioncc.Exceptions.{
  timeout, construct, IonException, Label, create_exception, Raised, ion, python, ion_exception,
  server_error, status_code,
}
use scioncc.Exceptions.Codes.{class_of-status_code, status_code_fails}
use scioncc.Rpc.{
  Value, value_eq, text, num, Headers, Message, stacks_body, empty_text, EndpointUnit,
}
use scioncc.Rpc.Replies.{
  text_of_id, create_error_response, error_body, described, build_header, respond, kwargs_of,
  unknown_arg,
}
use scioncc.Rpc.Server.{Operation, Server, receive}
use scioncc.Rpc.Client.{
  decoded, Received, remote_stacks, call_label, remote_error, decode, await_reply, outgoing,
}
use scioncc.Rpc.Serving.{answer_headers, mapped, reply_of, reply_to, received}
use scioncc.Rpc.Responses.{IsNoise, get_response-reply}
use scioncc.Rpc.Requests.{
  IsRequest-put, IsTransparent, IsPlain, IsRequest, conv_of, wanted, outgoing-wanted,
  wanted-IsRequest,
}

module _ {Stack V : Type 0} where
  -- An exception that the protocol can carry: of a proper subclass of IonException, with a stack, and
  -- with no empty text for its id.
  abbrev pub IsProper : Result (Raised Stack) (Message Stack V) → Type 0
  IsProper (ok m) = Unit
  IsProper (err (python t m)) = Unit
  IsProper (err (ion e)) = (e.class ≢ ion_exception) × (e.exc_id ≢ some "") × (e.stacks ≢ [])

  -- The caller gets the operation's result, or an exception of the same class, text, id and traces
  -- under one of its own; Python's own exceptions become ServerError.
  abbrev pub Mirrors :
      Stack
      → Result (Raised Stack) (Message Stack V)
      → Result (Raised Stack) (Message Stack V)
      → Type 0
  Mirrors here (ok m) r = r ≡ ok m
  Mirrors here (err (ion e)) r =
      (e' : IonException Stack) × (r ≡ err (ion e'))
      × (e'.class ≡ e.class)
      × (e'.message ≡ e.message)
      × (e'.exc_id ≡ e.exc_id)
      × (map (λ s. s.1) e'.stacks ≡ here ∷ map (λ s. s.1) e.stacks)
  Mirrors here (err (python t m)) r =
      (e' : IonException Stack) × (r ≡ err (ion e'))
      × (e'.class ≡ server_error)
      × (e'.message ≡ described m t)

id-kept :
    (i : Option String)
    → i ≢ some ""
    → (if text_of_id i == "" then none else some (text_of_id i)) ≡ i
id-kept none h = refl
id-kept (some t) h = ground (arith, eq_iff t "")

stacks-kept :
    {Stack : Type 0} (V : Type 0) (l : Label) (xs : List (Label × Stack))
    → xs ≢ []
    → (ys : List (Label × Stack)) × (remote_stacks {V = V} l (stacks_body xs) ≡ ok ys)
      × (map (λ s. s.1) ys ≡ map (λ s. s.1) xs)
unfolding remote_stacks
stacks-kept V l [] h = absurd (h refl)
stacks-kept V l ((k, t) ∷ xs) h = ((l, t) ∷ xs, refl, refl)

not_equal : {A : Type 0} ⦃e : Eq A⦄ (a b : A) → a ≢ b → (a == b) ≡ false
not_equal a b h = ground (arith, eq_iff a b)

module _ {Stack V : Type 0} (server client : EndpointUnit Stack V) (conv_id : Value)
    (h : Headers) where
  pub reply-header :
      (r : Result (Raised Stack) (Message Stack V × Headers)) (k : String)
      → let answer = answer_headers conv_id h (respond server r).1 in
        Dict.get (reply_of server conv_id h r).1 k ≡ (
          if is_some (Dict.get answer k)
          then Dict.get answer k
          else Dict.get (build_header server (respond server r).0) k)
  reply-header r k = Dict.get-update _ _ _

  pub reply_of-conv :
      (r : Result (Raised Stack) (Message Stack V × Headers))
      → Dict.get (reply_of server conv_id h r).1 "conv-id" ≡ some conv_id
  unfolding Dict.get Dict.put respond
  reply_of-conv r = rw (Dict.get-update, Dict.get-put, Dict.get-put) refl

  pub failed :
      (sent_headers rh : Headers) (res : Message Stack V) (n : ℤ) (msg id : String)
      (stacks : List (Label × Stack))
      → Dict.get rh "status_code" ≡ some (num n)
      → n ≢ pos 200
      → Dict.get rh "error_message" ≡ some (text msg)
      → Dict.get rh "error_id" ≡ some (text id)
      → remote_stacks (call_label client sent_headers) res ≡ ok stacks
      → decode client sent_headers res rh ≡ err (ion (create_exception client.here n msg id stacks))
  unfolding decode remote_error
  failed sent_headers rh res n msg id stacks st bad m i rs =
      rw (decode, st)
        (rw (not_equal (num n) (num (pos 200)) (λ e. ground arith))
          (rw (remote_error, rs, m, i) refl))

  pub decode-Mirrors :
      (sent_headers : Headers) (r : Result (Raised Stack) (Message Stack V))
      → IsProper r
      → let (body, headers) = reply_to server conv_id h r in
        Mirrors client.here r (decode client sent_headers body headers)
  unfolding decode Dict.get Dict.put respond create_error_response error_body create_exception
      status_code remote_stacks
  decode-Mirrors sent_headers (ok m) p =
      rw (decode, reply-header (mapped (ok m)) "status_code") refl
  decode-Mirrors sent_headers (err (python t m)) p =
      let r : Result (Raised Stack) (Message Stack V) = err (python t m) in
      (
        create_exception client.here (pos 500) (described m t) "" [],
        failed sent_headers (reply_to server conv_id h r).1 empty_text (pos 500) (described m t) ""
            [] (reply-header (mapped r) "status_code") (λ e. ground arith)
            (reply-header (mapped r) "error_message") (reply-header (mapped r) "error_id") refl,
        class_of-status_code server_error server_error (λ e. ground arith),
        refl,
      )
  decode-Mirrors sent_headers (err (ion e)) (proper, has_id, has_stack) =
      let r : Result (Raised Stack) (Message Stack V) = err (ion e) in
      let (ys, eq, traces) = stacks-kept V (call_label client sent_headers) e.stacks has_stack in
      (
        create_exception client.here (status_code e.class) e.message (text_of_id e.exc_id) ys,
        failed sent_headers (reply_to server conv_id h r).1 (stacks_body e.stacks)
            (status_code e.class) e.message (text_of_id e.exc_id) ys
            (reply-header (mapped r) "status_code") (status_code_fails e.class)
            (reply-header (mapped r) "error_message") (reply-header (mapped r) "error_id") eq,
        class_of-status_code server_error e.class proper,
        refl,
        id-kept e.exc_id has_id,
        ap (λ l. client.here ∷ l) traces,
      )

-- A remote procedure call over transparent interceptors: the caller's request reaches the operation,
-- which is called once with the arguments; one reply is sent, the request is acknowledged, and the
-- caller, who skips what belongs to other conversations, gets the operation's result or an exception
-- that mirrors the one it raised, and acknowledges what it read and no more.
pub await_reply-receive :
    {Stack V W : Type 0} (client server : EndpointUnit Stack V)
    (routing_obj : String → Option (Operation Stack V W)) (s : Server Stack V W)
    (new_conv_id late op : String) (timeout_ms tag reply_tag : ℕ) (msg : Message Stack V)
    (raw : Headers) (reply_to_name : Value) (d : Dict.Dict String V) (o : Operation Stack V W)
    (noise more : List (Received Stack V))
    → IsTransparent client
    → IsTransparent server
    → server.numerals ≡ client.numerals
    → IsPlain raw
    → routing_obj op ≡ some o
    → kwargs_of server msg ≡ ok d
    → unknown_arg o.args (Dict.keys d) ≡ none
    → IsProper (o.call d s.world).0
    → IsNoise client (conv_of new_conv_id raw) noise
    → (h : Headers) × (reply : Message Stack V × Headers) × (outgoing client new_conv_id timeout_ms
          op msg raw
        ≡ ok (msg, h))
      × (receive server routing_obj ((msg, Dict.put h "reply-to" reply_to_name), tag) s ≡ (
        ok tt,
        record s {
          world = (o.call d s.world).1;
          sent = s.sent ++ reply ∷ [];
          acked = s.acked ++ tag ∷ [];
        },
      ))
      × Mirrors client.here
          (o.call d s.world).0
          (await_reply client late h h (noise ++ (reply, reply_tag) ∷ more)).0
      × ((await_reply client late h h (noise ++ (reply, reply_tag) ∷ more)).1
          ≡ map (λ r. r.1) noise ++ reply_tag ∷ [])
unfolding await_reply decoded
await_reply-receive client server routing_obj s new_conv_id late op timeout_ms tag reply_tag msg raw
      reply_to_name d o noise more ct st n p r k u proper quiet =
    let conv_id = conv_of new_conv_id raw in
    let h = wanted client new_conv_id timeout_ms op msg raw in
    let q = wanted-IsRequest client new_conv_id timeout_ms op msg raw p in
    let h' = Dict.put h "reply-to" reply_to_name in
    let q' =
      subst (λ m. IsRequest m op conv_id h') (sym n)
        (IsRequest-put client.numerals op conv_id h reply_to_name q) in
    let reply = reply_to server conv_id h' (o.call d s.world).0 in
    let got =
      get_response-reply client (ion (construct client.here timeout late)) conv_id noise reply
        reply_tag more quiet (ct.incoming reply)
        (reply_of-conv server client conv_id h' (mapped (o.call d s.world).0)) in
    (
      h,
      reply,
      outgoing-wanted client new_conv_id timeout_ms op msg raw ct p,
      received server routing_obj op conv_id h' msg d o s tag st q' r k u,
      rw (await_reply, q.has_conv, got)
          (decode-Mirrors server client conv_id h' h (o.call d s.world).0 proper),
      rw (await_reply, q.has_conv, got) refl,
    )
