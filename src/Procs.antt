-- ===== src/Procs.antt =====
-- src/pyon/container/procs.py, class ProcManager: the registry of a container's running processes.
-- What a process does when it quits, the resource registry, the directory and the event publisher are
-- a parameter. A callback for state changes is a name, and its calls are recorded in order. The
-- attribute `errcause`, a text for the log, is left out.
pub mod Registering
pub mod Terminating
pub mod Quitting
pub mod Stopping
pub mod Lookup
pub mod Preserving
pub mod Keyed
mod Tests
use scioncc.Prelude.{
  ℕ, String, Bool, true, false, not, ◌&&◌, ◌||◌, Option, none, some, List, [], ◌∷◌, ◌++◌, map, Eq,
  ◌==◌, ◌↔◌, ◌≡◌, nat_eq, string_eq, if◌then◌else◌, remove_first, leb, Result, ok, err, Action,
  modify, when, pure, raise, ◌>>=◌, ◌>>◌, arith,
}
use scioncc.Prelude.Dict
use scioncc.Prelude.Dict.{Dict}

pub data ProcType : Type 0 where
  service stream_process agent standalone immediate simple : ProcType

abbrev pub type_code : ProcType → ℕ
type_code service = 0
type_code stream_process = 1
type_code agent = 2
type_code standalone = 3
type_code immediate = 4
type_code simple = 5

pub type_code_iff : (a b : ProcType) → ((type_code a == type_code b) ≡ true) ↔ (a ≡ b)
type_code_iff a b = ground arith

instance abbrev pub type_eq : Eq ProcType
type_eq = record { equal = λ a b. type_code a == type_code b; agrees = type_code_iff }

pub record Process : Type 0 where
  pub id : String
  -- `_proc_name`, the name that it was spawned with
  pub proc_name : String
  -- `name`, the service's
  pub name : String
  pub proc_type : ProcType
  -- of an agent
  pub resource_type : String
  pub start_time : ℕ
  pub res_id : Option String
  pub svc_id : Option String

pub data ProcessState : Type 0 where
  running terminating terminated exited failed pending : ProcessState

pub data ProcError : Type 0 where
  unknown_process ion_process_error : ProcError
  raised : String → ProcError

-- What a new resource is made of.
pub data Resource : Type 0 where
  process_resource : Process → Resource
  service_resource : String → Resource

pub record Services (W : Type 0) : Type 0 where
  pub has_resource_registry : Bool
  pub has_directory : Bool
  pub publish_events : Bool
  pub create : Resource → W → Result ProcError String × W
  -- subject, predicate, object
  pub create_association : String → String → String → W → Result ProcError (Unit {0}) × W
  -- the ids of the resources of a type and a name
  pub find_resources : String → String → W → Result ProcError (List String) × W
  -- the ids of the processes that a service has
  pub find_processes : Option String → W → Result ProcError (List String) × W
  pub delete : Option String → W → Result ProcError (Unit {0}) × W
  pub register : String → Process → W → Result ProcError (Unit {0}) × W
  pub unregister_safe : String → String → W → W
  pub publish_process_event : String → ProcessState → W → Result ProcError (Unit {0}) × W
  -- a call of one of the registered callbacks
  pub call_back : String → String → ProcessState → W → Result ProcError (Unit {0}) × W
  -- `quit` of the process, and the stop of its thread
  pub quit : Process → W → Result ProcError (Unit {0}) × W

pub record ProcManager (W : Type 0) : Type 0 where
  pub procs : Dict String Process
  -- a process is known by its id here
  pub procs_by_name : Dict String String
  pub cc_id : String
  pub state_change_callbacks : List String
  pub notified : List (String × String × ProcessState)
  pub world : W

abbrev pub Method : Type 0 → Type 0 → Type 0
Method W A = Action (ProcManager W) ProcError A

-- `[p for p in … if p.process_type == t]`
unfoldable pub of_type : ProcType → List Process → List Process
of_type t [] = []
of_type t (x ∷ xs) = let rest = of_type t xs in if x.proc_type == t then x ∷ rest else rest

unfoldable pub with_name : String → List Process → List Process
with_name name [] = []
with_name name (x ∷ xs) = let rest = with_name name xs in if x.name == name then x ∷ rest else rest

-- `for p in …: if p.name == name: return True`
unfoldable pub any_name : String → List Process → Bool
any_name name [] = false
any_name name (x ∷ xs) = let rest = any_name name xs in if x.name == name then true else rest

unfoldable pub any_resource_type : String → List Process → Bool
any_resource_type t [] = false
any_resource_type t (x ∷ xs) =
    let rest = any_resource_type t xs in if x.resource_type == t then true else rest

abbrev pub is_named : String → Process → Bool
is_named name p = (p.name == name) || ((p.proc_type == agent) && (p.resource_type == name))

unfoldable pub first_named : String → List Process → Option Process
first_named name [] = none
first_named name (x ∷ xs) =
    let rest = first_named name xs in if is_named name x then some x else rest

-- `sorted(…, key=_proc_start_time, reverse=True)`: the latest first, equal ones as they were.
unfoldable pub insert_by_start : Process → List Process → List Process
insert_by_start p [] = p ∷ []
insert_by_start p (x ∷ xs) =
    let rest = insert_by_start p xs in
    if leb x.start_time p.start_time then p ∷ x ∷ xs else x ∷ rest

unfoldable pub latest_first : List Process → List Process
unfolding insert_by_start
latest_first [] = []
latest_first (x ∷ xs) = insert_by_start x (latest_first xs)

module _ {W : Type 0} where
  abbrev pub values : ProcManager W → List Process
  values p = map (λ e. e.1) p.procs

  unfoldable pub list_local_processes : ProcManager W → Option ProcType → List Process
  unfolding of_type
  list_local_processes p none = values p
  list_local_processes p (some t) = of_type t (values p)

  unfoldable pub get_a_local_process : ProcManager W → String → Option Process
  unfolding first_named
  get_a_local_process p proc_name = first_named proc_name (values p)

  unfoldable pub get_local_service_processes : ProcManager W → String → List Process
  unfolding of_type with_name
  get_local_service_processes p service_name = with_name service_name (of_type service (values p))

  unfoldable pub is_local_service_process : ProcManager W → String → Bool
  unfolding list_local_processes any_name
  is_local_service_process p service_name =
      any_name service_name (list_local_processes p (some service))

  unfoldable pub is_local_agent_process : ProcManager W → String → Bool
  unfolding list_local_processes any_resource_type
  is_local_agent_process p resource_type =
      any_resource_type resource_type (list_local_processes p (some agent))

  unfoldable pub add_proc_state_changed_callback : ProcManager W → String → ProcManager W
  add_proc_state_changed_callback p cb = record p {
    state_change_callbacks = p.state_change_callbacks ++ cb ∷ [];
  }

  unfoldable pub remove_proc_state_changed_callback : ProcManager W → String → ProcManager W
  unfolding remove_first
  remove_proc_state_changed_callback p cb = record p {
    state_change_callbacks = remove_first p.state_change_callbacks cb;
  }

  -- What the manager asks of the services.
  abbrev pub ask : {A : Type 0} → (W → Result ProcError A × W) → Method W A
  ask f p = let (r, w) = f p.world in (r, record p { world = w })

  -- `try: … except Exception: log.exception(…)`
  abbrev pub swallow :
      Result ProcError (Unit {0}) × ProcManager W → Result ProcError (Unit {0}) × ProcManager W
  swallow (r, p) = (ok tt, p)
