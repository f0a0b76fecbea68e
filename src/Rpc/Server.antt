-- ===== src/Rpc/Server.antt =====
-- src/pyon/net/endpoint.py: EndpointUnit.send, ResponseEndpointUnit and RPCResponseEndpointUnit, the
-- server's side of a remote procedure call.
use scioncc.Prelude.{
  ℕ, String, string_eq, Option, none, some, List, [], ◌∷◌, ◌++◌, Result, ok, err, Action, and_then,
  pure, raise, modify, ◌>>=◌, ◌>>◌,
}
use scioncc.Prelude.Int.{pos}
use scioncc.Prelude.Text.{concat}
use scioncc.Prelude.Dict
use scioncc.Exceptions.{IonException, Raised, ion, python, bad_request, construct}
use scioncc.Rpc.{
  Value, text, num, Headers, Message, nothing, empty_text, process_interceptors, EndpointUnit,
}
use scioncc.Rpc.Replies.{
  failure, unknown_arg, create_error_response, build_header, calculate_timeout, kwargs_of,
  propagate, respond, conv_text,
}

-- A method of the routing object: the names that it takes, unless it takes any, and its code.
pub record Operation (Stack V W : Type 0) : Type 0 where
  pub args : Option (List String)
  pub call : Dict.Dict String V → Action W (Raised Stack) (Message Stack V)

-- The world of the operations, what the channel has sent and the tags that it has acknowledged.
pub record Server (Stack V W : Type 0) : Type 0 where
  pub world : W
  pub sent : List (Message Stack V × Headers)
  pub acked : List ℕ

module _ {Stack V W : Type 0} (unit : EndpointUnit Stack V) where
  -- An action on the world alone.
  abbrev in_world :
      {A : Type 0} → Action W (Raised Stack) A → Action (Server Stack V W) (Raised Stack) A
  in_world m s = let (r, w) = m s.world in (r, record s { world = w })

  abbrev lift : {A : Type 0} → Result (Raised Stack) A → Action (Server Stack V W) (Raised Stack) A
  lift r s = (r, s)

  -- `EndpointUnit.send` and `_send`, of which the channel's part is to send.
  unfoldable pub send :
      Message Stack V → Headers → Action (Server Stack V W) (Raised Stack) (Unit {0})
  unfolding build_header process_interceptors Dict.update
  send msg headers =
      lift (
        process_interceptors unit.message_outgoing
          (msg, Dict.update (build_header unit msg) headers))
      >>= λ out. modify (λ s. record s { sent = s.sent ++ out ∷ [] })

  module _ (routing_obj : String → Option (Operation Stack V W)) where
    -- `getattr(self._routing_obj, cmd_op)`, behind its test.
    unfoldable pub find_op : Option Value → Result (Raised Stack) (Operation Stack V W)
    find_op none = err (python "TypeError" "attribute name must be string")
    find_op (some (num n)) = err (python "TypeError" "attribute name must be string")
    find_op (some (text op)) = elim (routing_obj op) [
      | none ↦ err (ion (construct unit.here bad_request (concat "Unknown op name: " op)))
      | some ro_meth ↦ ok ro_meth
    ]

    -- The call, unless an argument is unknown.
    unfoldable pub invoke :
        Operation Stack V W
        → Dict.Dict String V
        → Action (Server Stack V W) (Raised Stack) (Message Stack V × Headers)
    unfolding unknown_arg Dict.keys
    invoke ro_meth kwargs = elim (unknown_arg ro_meth.args (Dict.keys kwargs)) [
      | some name ↦ pure (
        nothing,
        failure (pos 400) (concat "Argument " (concat name " not present in op signature")) "",
      )
      | none ↦ in_world (ro_meth.call kwargs) >>= λ result.
          pure (result, ("status_code", num (pos 200)) ∷ ("error_message", text "") ∷ [])
    ]

    -- `message_received`
    unfoldable pub message_received :
        Message Stack V
        → Headers
        → Action (Server Stack V W) (Raised Stack) (Message Stack V × Headers)
    unfolding calculate_timeout kwargs_of find_op invoke
    message_received msg headers =
        lift (calculate_timeout unit headers) >> lift (kwargs_of unit msg) >>= λ kwargs.
        lift (find_op (Dict.get headers "op")) >>= λ ro_meth. invoke ro_meth kwargs

    -- The error response for an exception of the outgoing interceptors.
    unfoldable pub send_error :
        Headers → IonException Stack → Action (Server Stack V W) (Raised Stack) (Unit {0})
    unfolding create_error_response propagate send
    send_error headers ex =
        let response = Dict.put (create_error_response (ion ex)) "error_message" (
          text (
            concat "(while trying to send RPC response for conv-id "
              (concat (conv_text unit (Dict.get headers "conv-id")) (concat ") " ex.message)))) in
        lift (propagate headers response) >>= send empty_text

    unfoldable pub send_or_error :
        Headers
        → Result (Raised Stack) (Unit {0}) × Server Stack V W
        → Result (Raised Stack) (Unit {0}) × Server Stack V W
    unfolding send_error
    send_or_error headers (ok _, s) = (ok tt, s)
    send_or_error headers (err (ion ex), s) = send_error headers ex s
    send_or_error headers (err (python t m), s) = (err (python t m), s)

    -- What `_message_received` does with the outcome of `message_received`.
    unfoldable pub conclude :
        Headers
        → Result (Raised Stack) (Message Stack V × Headers) × Server Stack V W
        → Result (Raised Stack) (Unit {0}) × Server Stack V W
    unfolding respond propagate send send_or_error
    conclude headers (r, s) =
        let (body, response) = respond unit r in
        and_then (propagate headers response, s) (λ h s'. send_or_error headers (send body h s'))

    -- `_message_received`
    unfoldable pub handle :
        Message Stack V → Headers → Action (Server Stack V W) (Raised Stack) (Unit {0})
    unfolding message_received conclude
    handle msg headers s = conclude headers (message_received msg headers s)

    -- The error response for an exception of the incoming interceptors, which then goes on.
    unfoldable pub refuse :
        Headers
        → Raised Stack
        → Action (Server Stack V W) (Raised Stack) (Message Stack V × Headers)
    unfolding respond propagate send
    refuse headers ex =
        let (body, response) = respond unit (err ex) in
        lift (propagate headers response) >>= send body >> raise ex

    -- `RPCResponseEndpointUnit.intercept_in`
    unfoldable pub intercept_in :
        Message Stack V × Headers
        → Action (Server Stack V W) (Raised Stack) (Message Stack V × Headers)
    unfolding process_interceptors refuse
    intercept_in raw = elim (process_interceptors unit.message_incoming raw) [
      | ok m ↦ pure m
      | err ex ↦ refuse raw.1 ex
    ]

    -- `MessageObject.route`, behind `make_body`, which keeps an exception.
    unfoldable pub route :
        Result (Raised Stack) (Message Stack V × Headers) × Server Stack V W
        → Result (Raised Stack) (Unit {0}) × Server Stack V W
    unfolding handle
    route (err ex, s) = (ok tt, s)
    route (ok (body, headers), s) = handle body headers s

    -- One message in the loop of `listen`: it is acknowledged also if `route` raises.
    unfoldable pub receive :
        (Message Stack V × Headers) × ℕ → Action (Server Stack V W) (Raised Stack) (Unit {0})
    unfolding intercept_in route
    receive (raw, tag) s =
        let (r, s') = route (intercept_in raw s) in (r, record s' { acked = s'.acked ++ tag ∷ [] })
