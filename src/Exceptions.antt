-- ===== src/Exceptions.antt =====
-- src/pyon/core/exception.py: the application exceptions, which carry a status code, and the factory
-- that builds one from what an error response holds. The stacks are those that the base class
-- ApplicationException of src/putil/exception.py keeps; the trace of a stack is a parameter.
pub mod Codes
use mathlib.Core.List.{foldl}
use scioncc.Prelude.{
  String, Option, none, some, List, [], ◌∷◌, ◌++◌, if◌then◌else◌, ◌==◌, string_eq,
}
use scioncc.Prelude.Int.{ℤ, pos, negsuc, int_eq}
use scioncc.Prelude.Dict

-- The classes of the module that have a `status_code`.
pub data ExceptionClass : Type 0 where
  ion_exception : ExceptionClass
  stream_exception : ExceptionClass
  bad_request : ExceptionClass
  unauthorized : ExceptionClass
  not_found : ExceptionClass
  not_acceptable : ExceptionClass
  timeout : ExceptionClass
  conflict : ExceptionClass
  inconsistent : ExceptionClass
  filesystem_error : ExceptionClass
  streaming_error : ExceptionClass
  corruption_error : ExceptionClass
  server_error : ExceptionClass
  service_unavailable : ExceptionClass
  config_not_found : ExceptionClass
  container_error : ExceptionClass
  container_config_error : ExceptionClass
  container_startup_error : ExceptionClass
  container_app_error : ExceptionClass
  resource_error : ExceptionClass

-- `obj.status_code`, which StreamException inherits.
unfoldable pub status_code : ExceptionClass → ℤ
status_code ion_exception = negsuc 0
status_code stream_exception = negsuc 0
status_code bad_request = pos 400
status_code unauthorized = pos 401
status_code not_found = pos 404
status_code not_acceptable = pos 406
status_code timeout = pos 408
status_code conflict = pos 409
status_code inconsistent = pos 410
status_code filesystem_error = pos 411
status_code streaming_error = pos 412
status_code corruption_error = pos 413
status_code server_error = pos 500
status_code service_unavailable = pos 503
status_code config_not_found = pos 540
status_code container_error = pos 550
status_code container_config_error = pos 551
status_code container_startup_error = pos 553
status_code container_app_error = pos 554
status_code resource_error = pos 700

-- The label of a stack: that of an exception's own, which is made of its class, code and message, or
-- another text.
pub data Label : Type 0 where
  own : ExceptionClass → String → Label
  label : String → Label

pub record IonException (Stack : Type 0) : Type 0 where
  pub class : ExceptionClass
  pub message : String
  pub exc_id : Option String
  pub stacks : List (Label × Stack)

-- What Python code raises: an application exception, or another with the name of its type.
pub data Raised (Stack : Type 0) : Type 0 where
  ion : IonException Stack → Raised Stack
  python : String → String → Raised Stack

-- `inspect.getmembers`, in the order of the names.
abbrev members : List ExceptionClass
members =
    bad_request ∷ config_not_found ∷ conflict ∷ container_app_error ∷ container_config_error
    ∷ container_error ∷ container_startup_error ∷ corruption_error ∷ filesystem_error ∷ inconsistent
    ∷ ion_exception ∷ not_acceptable ∷ not_found ∷ resource_error ∷ server_error
    ∷ service_unavailable ∷ stream_exception ∷ streaming_error ∷ timeout ∷ unauthorized ∷ []

-- `self._exception_map`, by the code itself in place of its text.
unfoldable pub exception_map : Dict.Dict ℤ ExceptionClass
unfolding Dict.put status_code
exception_map = foldl (λ d c. Dict.put d (status_code c) c) Dict.empty members

-- The class that a code stands for.
unfoldable pub class_of : ExceptionClass → ℤ → ExceptionClass
unfolding exception_map Dict.get
class_of default_type code = elim (Dict.get exception_map code) [ some c ↦ c | none ↦ default_type ]

module _ {Stack : Type 0} where
  -- `cls(message)`, raised where the trace is `here`.
  unfoldable pub construct : Stack → ExceptionClass → String → IonException Stack
  construct here c message = record {
    class = c;
    message = message;
    exc_id = none;
    stacks = (own c message, here) ∷ [];
  }

  -- `ExceptionFactory().create_exception`
  unfoldable pub create_exception :
      Stack → ℤ → String → String → List (Label × Stack) → IonException Stack
  unfolding construct
  create_exception here code message exc_id stacks =
      let new_exc = construct here (class_of server_error code) message in
      record new_exc {
        exc_id = if exc_id == "" then none else some exc_id;
        stacks = new_exc.stacks ++ stacks;
      }
