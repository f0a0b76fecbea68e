-- ===== src/Procs/Registering.antt =====
-- src/pyon/container/procs.py: `_call_proc_state_changed` and `_register_process`.
use scioncc.Prelude.{
  List, [], ◌∷◌, String, not, ◌&&◌, Option, none, some, ◌++◌, ◌==◌, nat_eq, string_eq,
  if◌then◌else◌, modify, when, pure, ◌>>=◌, ◌>>◌,
}
use scioncc.Prelude.Dict
use scioncc.Channel.{or_default}
use scioncc.Procs.{
  service, stream_process, agent, standalone, immediate, simple, type_eq, Process, ProcessState,
  running, process_resource, service_resource, Services, ProcManager, Method, ask, swallow,
}

module _ {W : Type 0} where
  -- An attribute of a process that is set after it was put into the registry.
  abbrev pub set_process : String → (Process → Process) → ProcManager W → ProcManager W
  set_process pid change p = elim (Dict.get p.procs pid) [
    | none ↦ p
    | some x ↦ record p { procs = Dict.put p.procs pid (change x) }
  ]

  abbrev pub enter : Process → ProcManager W → ProcManager W
  enter x p = record p {
    procs_by_name = Dict.put p.procs_by_name x.proc_name x.id;
    procs = Dict.put p.procs x.id x;
  }

module _ {W : Type 0} (sv : Services W) where
  open sv use {
    has_resource_registry, has_directory, publish_events, create, create_association,
    find_resources, register, publish_process_event, call_back,
  }

  -- The loop over the callbacks, which the first one that raises leaves.
  unfoldable pub call_all : List String → String → ProcessState → Method W (Unit {0})
  call_all [] svc state = pure tt
  call_all (cb ∷ cbs) svc state =
      modify (λ p. record p { notified = p.notified ++ (cb, svc, state) ∷ [] })
      >> ask (call_back cb svc state)
      >> call_all cbs svc state

  -- `_call_proc_state_changed`, with `_publish_process_event`, which only logs what publishing raises.
  unfoldable pub call_proc_state_changed : String → ProcessState → Method W (Unit {0})
  unfolding call_all
  call_proc_state_changed svc state =
      (λ p. call_all p.state_change_callbacks svc state p)
      >> (λ p. swallow (when publish_events (ask (publish_process_event svc state)) p))

  -- The Process resource, of whose id the rest makes use.
  unfoldable pub register_resource : Process → Method W (Option String)
  register_resource x =
      if not (x.proc_type == immediate) && has_resource_registry
      then (ask (create (process_resource x)) >>= λ proc_id.
          modify (set_process x.id (λ y. record y { res_id = some proc_id }))
          >> (λ p. ask (create_association p.cc_id "hasProcess" proc_id) p)
          >> pure (some proc_id))
      else modify (set_process x.id (λ y. record y { res_id = none })) >> pure none

  -- The association with the service's definition, if there is one.
  unfoldable pub define_service : String → List String → Method W (Unit {0})
  define_service s [] = pure tt
  define_service s (d ∷ more) = ask (create_association s "hasServiceDefinition" d)

  abbrev pub set_service : Process → String → Method W (Unit {0})
  set_service x s = modify (set_process x.id (λ y. record y { svc_id = some s }))

  -- The Service resource, found or new.
  unfoldable pub found_service : Process → List String → Method W String
  unfolding define_service
  found_service x (s ∷ more) = set_service x s >> pure s
  found_service x [] = ask (create (service_resource x.name)) >>= λ s.
      set_service x s >> ask (find_resources "ServiceDefinition" x.name) >>= λ svcdef_list.
      define_service s svcdef_list >> pure s

  unfoldable pub service_id : Process → Method W String
  unfolding found_service
  service_id x = ask (find_resources "Service" x.name) >>= found_service x

  -- What is registered besides, by the type of the process.
  unfoldable pub register_type : Process → Option String → Method W (Unit {0})
  unfolding service_id
  register_type x proc_id = elim x.proc_type [
    | service ↦
        when has_resource_registry
          (service_id x >>= λ s. ask (create_association s "hasProcess" (or_default proc_id "")))
    | agent ↦ when has_directory (ask (register "/Agents" x))
    | stream_process ↦ pure tt
    | standalone ↦ pure tt
    | immediate ↦ pure tt
    | simple ↦ pure tt
  ]

  -- `_register_process`
  unfoldable pub register_process : Process → Method W (Unit {0})
  unfolding register_resource register_type call_proc_state_changed
  register_process x = modify (enter x) >> register_resource x >>= λ proc_id.
      register_type x proc_id >> call_proc_state_changed x.id running
