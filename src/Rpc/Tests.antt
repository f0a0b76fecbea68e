-- ===== src/Rpc/Tests.antt =====
-- A call of an operation that raises, from a client that first receives another conversation's message.
use scioncc.Prelude.{
  ap, false, eq_iff, ℕ, zero, suc, ◌≡◌, refl, String, ◌==◌, nat_eq, string_eq, Option, none, some,
  [], ◌∷◌, ◌++◌, contains, ok, err, arith, if◌then◌else◌,
}
use Prim.Native.Char.{code}
use scioncc.Prelude.Int.{ℤ, pos, negsuc}
use scioncc.Prelude.Text.{concat}
use scioncc.Prelude.Dict
use scioncc.Exceptions.{ion, not_found, construct}
use scioncc.Rpc.{
  Value, text, Headers, Message, dict, empty_text, Numerals, process_interceptors, EndpointUnit,
}
use scioncc.Rpc.Replies.{unknown_arg, kwargs_of}
use scioncc.Rpc.Server.{Operation, Server, receive}
use scioncc.Rpc.Client.{Received, outgoing, await_reply}
use scioncc.Rpc.Requests.{IsTransparent, IsPlain}
use scioncc.Rpc.RoundTrip.{Mirrors, await_reply-receive}
use scioncc.Rpc.Refusals.{IsBadRequest, unknown_op, await_reply-Refused}

-- Numbers in unary, with a sign.
unary : ℕ → String
unary zero = String.[]
unary (suc n) = String.◌∷◌ "i" (unary n)

count : String → ℕ
count String.[] = 0
count (String.◌∷◌ c s) = suc (count s)

count-unary : (n : ℕ) → count (unary n) ≡ n
unfolding count unary
count-unary zero = refl
count-unary (suc n) = ap suc (count-unary n)

write : ℤ → String
unfolding unary
write (pos n) = String.◌∷◌ "+" (unary n)
write (negsuc n) = String.◌∷◌ "-" (unary n)

read : String → Option ℤ
unfolding count
read String.[] = none
read (String.◌∷◌ c s) =
    if code c == b'+'
    then some (pos (count s))
    else if code c == b'-'
    then some (negsuc (count s))
    else none

read-write : (n : ℤ) → read (write n) ≡ some n
unfolding read write
read-write (pos n) = ap (λ k. some (pos k)) (count-unary n)
read-write (negsuc n) = ap (λ k. some (negsuc k)) (count-unary n)

abbrev unary_numerals : Numerals
unary_numerals = record { int_of = read; text_of = write; int_of-text_of = read-write }

abbrev unit : EndpointUnit String ℕ
unit = record {
  message_incoming = [];
  message_outgoing = [];
  ts = pos 5;
  send_name = some "xp,queue";
  type_name = λ m. "dict";
  type_text = λ m. "<type 'dict'>";
  here = "client trace";
  numerals = unary_numerals;
}

unit-IsTransparent : IsTransparent unit
unfolding process_interceptors
unit-IsTransparent = record { incoming = λ m. refl; outgoing = λ m. refl }

-- Counts its calls and finds nothing.
abbrev find : Operation String ℕ ℕ
find = record {
  args = some ("key" ∷ []);
  call = λ d w. (err (ion (construct "server trace" not_found "no such key")), suc w);
}

abbrev routing_obj : String → Option (Operation String ℕ ℕ)
routing_obj op = if op == "find" then some find else none

abbrev idle : Server String ℕ ℕ
idle = record { world = 0; sent = []; acked = [] }

abbrev other : Received String ℕ
other = ((empty_text, ("conv-id", text "old") ∷ []), 7)

plain : IsPlain []
unfolding Dict.get
plain = record { no_ts = refl; no_seq = refl }

old_is_other :
    (a b : String) → (a == b) ≡ false → ¬ (◌≡◌ {A = Option Value} (some (text a)) (some (text b)))
old_is_other a b h e = ground (arith, eq_iff a b)

-- The client sends, the server counts the call and replies, and the client raises NotFound.
await_reply-receive_example :
    (h : Headers) × (reply : Message String ℕ × Headers) × (outgoing unit "c-1" 10000 "find"
        (dict (("key", 3) ∷ []))
        []
      ≡ ok (dict (("key", 3) ∷ []), h))
    × (receive unit routing_obj
          ((dict (("key", 3) ∷ []), Dict.put h "reply-to" (text "xp,rpc")), 1)
          idle
        ≡ (ok tt, record { world = 1; sent = [] ++ reply ∷ []; acked = [] ++ 1 ∷ [] }))
    × Mirrors {V = ℕ} "client trace"
        (err (ion (construct "server trace" not_found "no such key")))
        (await_reply unit "late" h h ((other ∷ []) ++ (reply, 8) ∷ [])).0
    × ((await_reply unit "late" h h ((other ∷ []) ++ (reply, 8) ∷ [])).1 ≡ 7 ∷ 8 ∷ [])
unfolding construct Dict.get Dict.keys process_interceptors unknown_arg kwargs_of contains
await_reply-receive_example =
    await_reply-receive unit unit routing_obj idle "c-1" "late" "find" 10000 1 8
      (dict (("key", 3) ∷ [])) [] (text "xp,rpc") (("key", 3) ∷ []) find (other ∷ []) []
      unit-IsTransparent unit-IsTransparent refl plain refl refl refl
      (λ e. ground arith, λ e. ground arith, λ e. ground arith)
      (refl, old_is_other "old" "c-1" refl, tt)

-- The server has no "drop": it counts no call, and the client raises BadRequest.
await_reply-Refused_example :
    (h : Headers) × (reply : Message String ℕ × Headers) × (outgoing unit "c-1" 10000 "drop"
        (dict (("key", 3) ∷ []))
        []
      ≡ ok (dict (("key", 3) ∷ []), h))
    × (receive unit routing_obj
          ((dict (("key", 3) ∷ []), Dict.put h "reply-to" (text "xp,rpc")), 1)
          idle
        ≡ (ok tt, record { world = 0; sent = [] ++ reply ∷ []; acked = [] ++ 1 ∷ [] }))
    × IsBadRequest "Unknown op name: drop"
        (await_reply unit "late" h h ((other ∷ []) ++ (reply, 8) ∷ [])).0
    × ((await_reply unit "late" h h ((other ∷ []) ++ (reply, 8) ∷ [])).1 ≡ 7 ∷ 8 ∷ [])
unfolding kwargs_of Dict.get process_interceptors concat
await_reply-Refused_example =
    await_reply-Refused unit unit routing_obj idle "c-1" "late" "drop" "Unknown op name: drop" 10000
      1 8 (dict (("key", 3) ∷ [])) [] (text "xp,rpc") (other ∷ []) [] unit-IsTransparent
      unit-IsTransparent refl plain (unknown_op refl refl) (refl, old_is_other "old" "c-1" refl, tt)
