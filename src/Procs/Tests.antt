-- ===== src/Procs/Tests.antt =====
-- A manager with two processes, and services that always answer.
use scioncc.Prelude.{
  ◌≡◌, ◌⊎◌, refl, String, Bool, true, false, some, [], ◌∷◌, ◌==◌, string_eq, eq_iff, Result, ok,
  err, arith,
}
use scioncc.Prelude.Dict
use scioncc.Procs.{service, agent, Process, ProcError, raised, Services, ProcManager}
use scioncc.Procs.Terminating.{terminate_process, stop_processes}
use scioncc.Procs.Quitting.{IsWilling, registry, without}
use scioncc.Procs.Stopping.{
  IsKeyed, IsDecided, unless_quits, terminate_process-registry, stop_processes_left,
}
use scioncc.Procs.Registering.{register_process}
use scioncc.Procs.Keyed.{registers, terminates, empty, next, Runs-IsKeyed}

program : Unit {0}
unfolding Dict.get Dict.remove
program = tt

abbrev first : Process
first = record {
  id = "p1";
  proc_name = "one";
  name = "svc";
  proc_type = service;
  resource_type = "";
  start_time = 1;
  res_id = some "r1";
  svc_id = some "s1";
}

abbrev second : Process
second = record first { id = "p2"; proc_name = "two"; proc_type = agent; start_time = 2 }

-- Agents do not quit.
abbrev quits : Process → Bool
quits p = p.id == "p1"

abbrev quit_of : Bool → String → Result ProcError (Unit {0}) × String
quit_of true w = (ok tt, w)
quit_of false w = (err (raised "busy"), w)

abbrev services : Services String
services = record {
  has_resource_registry = true;
  has_directory = true;
  publish_events = true;
  create = λ r w. (ok "new", w);
  create_association = λ s p o w. (ok tt, w);
  find_resources = λ t n w. (ok [], w);
  find_processes = λ s w. (ok [], w);
  delete = λ i w. (ok tt, w);
  register = λ k x w. (ok tt, w);
  unregister_safe = λ k x w. w;
  publish_process_event = λ s t w. (ok tt, w);
  call_back = λ cb s t w. (ok tt, w);
  quit = λ x. quit_of (quits x);
}

willing : IsWilling services
willing = record { calls = λ cb pid s w. refl; finds = λ s w. ([], refl) }

abbrev manager : ProcManager String
manager = record {
  procs = ("p1", first) ∷ ("p2", second) ∷ [];
  procs_by_name = ("one", "p1") ∷ ("two", "p2") ∷ [];
  cc_id = "cc";
  state_change_callbacks = "cb" ∷ [];
  notified = [];
  world = "";
}

manager-IsKeyed : IsKeyed manager.procs
unfolding program
manager-IsKeyed k x h = ground (arith, h, eq_iff "p1" k, eq_iff "p2" k)

decided : IsDecided services quits
decided = record {
  returns = λ x q w. ground (arith, q);
  raises = λ x q. (raised "busy", λ w. ground (arith, q));
}

terminate_process-registry_example :
    ((quits second ≡ true)
      × ((terminate_process services "p2" true manager).0 ≡ ok tt)
      × (registry (terminate_process services "p2" true manager).1
          ≡ without services willing "p2" second manager))
    ⊎ ((quits second ≡ false)
        × (e : ProcError) × ((terminate_process services "p2" true manager).0 ≡ err e)
        × (registry (terminate_process services "p2" true manager).1 ≡ registry manager))
unfolding program
terminate_process-registry_example =
    terminate_process-registry services willing quits decided "p2" true manager second refl

stop_processes_left_example :
    Dict.get (stop_processes services manager).procs "p2"
    ≡ unless_quits quits (Dict.get manager.procs "p2")
stop_processes_left_example =
    stop_processes_left services willing quits decided manager "p2" manager-IsKeyed

abbrev vacant : ProcManager String
vacant = record manager { procs = []; procs_by_name = [] }

Runs-IsKeyed_example :
    IsKeyed
      (terminate_process services "p2" true (register_process services second vacant).1).1.procs
Runs-IsKeyed_example =
    Runs-IsKeyed services
      (terminate_process services "p2" true (register_process services second vacant).1).1
      (next (next (empty refl) (registers second)) (terminates "p2" true))
