-- ===== src/Rpc/Responses.antt =====
-- The caller's wait: which message ends it, and what is acknowledged.
use scioncc.Prelude.{
  ◌≡◌, ◌≢◌, refl, string_eq, option_eq, eq_iff, eq_refl, some, List, [], ◌∷◌, ◌++◌, map, ok, err,
  arith, ℕ,
}
use scioncc.Prelude.Dict
use scioncc.Exceptions.{Raised}
use scioncc.Rpc.{Value, value_eq, Headers, Message, process_interceptors, EndpointUnit}
use scioncc.Rpc.Client.{Received, settle, get_response}

module _ {Stack V : Type 0} where
  -- The messages are left as they are by the incoming interceptors, and carry another conversation.
  abbrev pub IsNoise : EndpointUnit Stack V → Value → List (Received Stack V) → Type 0
  IsNoise unit conv_id [] = Unit {0}
  IsNoise unit conv_id ((m, tag) ∷ more) =
      (process_interceptors unit.message_incoming m ≡ ok m)
      × (Dict.get m.1 "conv-id" ≢ some conv_id)
      × IsNoise unit conv_id more

module _ {Stack V : Type 0} (unit : EndpointUnit Stack V) (late : Raised Stack)
    (conv_id : Value) where
  -- The first message of the conversation ends the wait, and it is acknowledged with those before it,
  -- but none that comes later.
  pub get_response-reply :
      (noise : List (Received Stack V)) (m : Message Stack V × Headers) (tag : ℕ)
      (more : List (Received Stack V))
      → IsNoise unit conv_id noise
      → process_interceptors unit.message_incoming m ≡ ok m
      → Dict.get m.1 "conv-id" ≡ some conv_id
      → get_response unit late conv_id (noise ++ (m, tag) ∷ more)
        ≡ (ok m, map (λ r. r.1) noise ++ tag ∷ [])
  unfolding get_response settle
  get_response-reply [] m tag more n i h = rw i (rw h (rw (eq_refl {A = Value} conv_id) refl))
  get_response-reply ((m', tag') ∷ noise) m tag more (i', other, n) i h = rw i' (
      ground (
        arith,
        eq_iff (Dict.get m'.1 "conv-id") (some conv_id),
        get_response-reply noise m tag more n i h,
      ))

  -- Where no message of the conversation comes, the wait ends late, with all acknowledged.
  pub get_response-late :
      (noise : List (Received Stack V))
      → IsNoise unit conv_id noise
      → get_response unit late conv_id noise ≡ (err late, map (λ r. r.1) noise)
  unfolding get_response settle
  get_response-late [] n = refl
  get_response-late ((m', tag') ∷ noise) (i', other, n) =
      rw i'
        (ground (arith, eq_iff (Dict.get m'.1 "conv-id") (some conv_id), get_response-late noise n))
