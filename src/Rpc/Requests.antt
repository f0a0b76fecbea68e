-- ===== src/Rpc/Requests.antt =====
-- What a request carries to the server, whatever headers the caller adds.
use scioncc.Prelude.{◌≡◌, refl, ℕ, String, string_eq, none, some, ok, Option-cases, inl, inr}
use scioncc.Prelude.Int.{ℤ, pos}
use scioncc.Prelude.Dict
use scioncc.Rpc.{Value, text, num, Headers, Message, Numerals, process_interceptors, EndpointUnit}
use scioncc.Rpc.Replies.{read_int}
use scioncc.Rpc.Client.{plus, build_request, request_headers, outgoing}

-- The interceptors let every message through.
pub record IsTransparent {Stack V : Type 0} (unit : EndpointUnit Stack V) : Type 0 where
  pub incoming :
      (m : Message Stack V × Headers) → process_interceptors unit.message_incoming m ≡ ok m
  pub outgoing :
      (m : Message Stack V × Headers) → process_interceptors unit.message_outgoing m ≡ ok m

-- The caller leaves the time and the number of the message to the endpoint.
pub record IsPlain (raw : Headers) : Type 0 where
  pub no_ts : Dict.get raw "ts" ≡ none
  pub no_seq : Dict.get raw "conv-seq" ≡ none

-- The caller's own conversation, or the new one.
abbrev pub conv_of : String → Headers → Value
conv_of new_conv_id raw = elim (Dict.get raw "conv-id") [ some v ↦ v | none ↦ text new_conv_id ]

-- The headers that the server reads.
pub record IsRequest (numerals : Numerals) (op : String) (conv_id : Value) (h : Headers)
    : Type 0 where
  pub ts : ℤ
  pub has_ts : Dict.get h "ts" ≡ some (text (numerals.text_of ts))
  pub reply_by : ℤ
  pub has_reply_by : Dict.get h "reply-by" ≡ some (text (numerals.text_of reply_by))
  pub has_op : Dict.get h "op" ≡ some (text op)
  pub has_conv : Dict.get h "conv-id" ≡ some conv_id
  pub has_seq : Dict.get h "conv-seq" ≡ some (num (pos 1))

-- The channel adds where to reply.
pub IsRequest-put :
    (numerals : Numerals) (op : String) (conv_id : Value) (h : Headers) (reply_to : Value)
    → IsRequest numerals op conv_id h
    → IsRequest numerals op conv_id (Dict.put h "reply-to" reply_to)
IsRequest-put numerals op conv_id h reply_to q = record {
  ts = q.ts;
  has_ts = rw Dict.get-put q.has_ts;
  reply_by = q.reply_by;
  has_reply_by = rw Dict.get-put q.has_reply_by;
  has_op = rw Dict.get-put q.has_op;
  has_conv = rw Dict.get-put q.has_conv;
  has_seq = rw Dict.get-put q.has_seq;
}

module _ {Stack V : Type 0} (unit : EndpointUnit Stack V) where
  module _ (new_conv_id : String) (timeout_ms : ℕ) (op : String) (msg : Message Stack V)
      (raw : Headers) where
    abbrev with_op : Headers
    with_op = Dict.put raw "op" (text op)

    abbrev pub wanted : Headers
    wanted =
        Dict.put (Dict.update (build_request unit new_conv_id msg with_op) with_op) "reply-by"
          (text (unit.numerals.text_of (plus unit.ts timeout_ms)))

    built-ts :
        IsPlain raw
        → Dict.get (Dict.update (build_request unit new_conv_id msg with_op) with_op) "ts"
          ≡ some (text (unit.numerals.text_of unit.ts))
    unfolding build_request Dict.get
    built-ts p = rw (Dict.get-update, Dict.get-put, p.no_ts) refl

    request_headers-wanted :
        IsPlain raw → request_headers unit new_conv_id timeout_ms msg with_op ≡ ok wanted
    unfolding request_headers Dict.put
    request_headers-wanted p =
        rw (request_headers, built-ts p, read_int, unit.numerals.int_of-text_of unit.ts) refl

    -- What is sent, and that the server can read it.
    pub outgoing-wanted :
        IsTransparent unit
        → IsPlain raw
        → outgoing unit new_conv_id timeout_ms op msg raw ≡ ok (msg, wanted)
    unfolding outgoing Dict.put
    outgoing-wanted t p = rw (outgoing, request_headers-wanted p) (t.outgoing (msg, wanted))

    wanted-conv : Dict.get wanted "conv-id" ≡ some (conv_of new_conv_id raw)
    unfolding build_request Dict.get
    wanted-conv = elim (Option-cases (Dict.get raw "conv-id")) [
      | inl e ↦ rw (Dict.get-put, Dict.get-update, Dict.get-put, e, conv_of) refl
      | inr (v, e) ↦ rw (Dict.get-put, Dict.get-update, Dict.get-put, e, conv_of) refl
    ]

    pub wanted-IsRequest : IsPlain raw → IsRequest unit.numerals op (conv_of new_conv_id raw) wanted
    unfolding build_request Dict.get
    wanted-IsRequest p = record {
      ts = unit.ts;
      has_ts = rw Dict.get-put (built-ts p);
      reply_by = plus unit.ts timeout_ms;
      has_reply_by = rw Dict.get-put refl;
      has_op = rw (Dict.get-put, Dict.get-update, Dict.get-put) refl;
      has_conv = wanted-conv;
      has_seq = rw (Dict.get-put, Dict.get-update, Dict.get-put, p.no_seq) refl;
    }
