-- ===== src/Procs/Terminating.antt =====
-- src/pyon/container/procs.py: `terminate_process`, `_unregister_process`, `_spawned_proc_failed`,
-- `stop`, and the end of `spawn_process`.
use scioncc.Prelude.{
  String, Bool, true, false, ◌&&◌, Option, none, some, is_some, List, [], ◌∷◌, ◌==◌, nat_eq,
  string_eq, Result, ok, err, modify, when, pure, raise, ◌>>=◌, ◌>>◌,
}
use scioncc.Prelude.Dict
use scioncc.Procs.{
  service, stream_process, agent, standalone, immediate, simple, type_eq, Process, terminating,
  terminated, exited, failed, ProcError, unknown_process, ion_process_error, raised, Services,
  ProcManager, Method, ask, swallow, values, latest_first,
}
use scioncc.Procs.Registering.{call_proc_state_changed, register_process}

module _ {W : Type 0} where
  -- `del self.procs[…]`, and the name if it is registered
  unfoldable pub leave : String → Process → ProcManager W → ProcManager W
  leave pid x p = record p {
    procs = Dict.remove p.procs pid;
    procs_by_name = Dict.remove p.procs_by_name x.proc_name;
  }

module _ {W : Type 0} (sv : Services W) where
  open sv use {has_resource_registry, has_directory, find_processes, delete, unregister_safe, quit}

  -- The resource of an id goes, if it can.
  abbrev pub delete_safe : Option String → Method W (Unit {0})
  delete_safe id p = swallow (ask (delete id) p)

  unfoldable pub unregister_resource : Process → Method W (Unit {0})
  unregister_resource x = when (is_some x.res_id && has_resource_registry) (delete_safe x.res_id)

  -- The service goes with its last process.
  unfoldable pub left_service : Process → List String → Method W (Unit {0})
  left_service x [] = delete_safe x.svc_id
  left_service x (s ∷ more) = pure tt

  unfoldable pub unregister_type : Process → Method W (Unit {0})
  unfolding left_service
  unregister_type x = elim x.proc_type [
    | service ↦ when has_resource_registry (ask (find_processes x.svc_id) >>= left_service x)
    | agent ↦
        when has_directory
          (modify (λ p. record p { world = unregister_safe "/Agents" x.id p.world }))
    | stream_process ↦ pure tt
    | standalone ↦ pure tt
    | immediate ↦ pure tt
    | simple ↦ pure tt
  ]

  -- `_unregister_process`
  unfoldable pub unregister_process : String → Process → Method W (Unit {0})
  unfolding unregister_resource unregister_type leave
  unregister_process pid x = unregister_resource x >> unregister_type x >> modify (leave pid x)

  unfoldable pub terminate_process : String → Bool → Method W (Unit {0})
  unfolding call_proc_state_changed unregister_process
  terminate_process pid do_notifications p = elim (Dict.get p.procs pid) [
    | none ↦ (err unknown_process, p)
    | some x ↦
        (when do_notifications (call_proc_state_changed sv pid terminating)
            >> ask (quit x)
            >> unregister_process pid x
            >> when do_notifications (call_proc_state_changed sv pid terminated))
          p
  ]

  -- The loop of `stop`: what raises is logged.
  unfoldable pub terminate_all : List Process → ProcManager W → ProcManager W
  unfolding terminate_process
  terminate_all [] p = p
  terminate_all (x ∷ xs) p = terminate_all xs (terminate_process x.id true p).1

  unfoldable pub stop_processes : ProcManager W → ProcManager W
  unfolding terminate_all latest_first
  stop_processes p = terminate_all (latest_first (values p)) p

  -- `_spawned_proc_failed` for a process that is known, and whether the container is to stop
  unfoldable pub spawned_proc_failed :
      Bool → Process → ProcManager W → Result ProcError Bool × ProcManager W
  unfolding terminate_process call_proc_state_changed
  spawned_proc_failed exit_once_empty x =
      (λ p. swallow (terminate_process x.id false p))
      >> call_proc_state_changed sv x.id failed
      >> (λ p. (ok (exit_once_empty && elim p.procs [ [] ↦ true | e ∷ more ↦ false ]), p))

  -- The end of `spawn_process`, once the instance is there: the id, or none for a process error.
  unfoldable pub finish_spawn : Process → Method W (Option String)
  unfolding register_process terminate_process call_proc_state_changed
  finish_spawn x p =
      let (r, p') =
        (register_process sv x
            >> when (x.proc_type == immediate)
                (terminate_process x.id true >> call_proc_state_changed sv x.id exited))
          p in
      elim r [
        | ok u ↦ (ok (some x.id), p')
        | err e ↦ elim e [
          | ion_process_error ↦ (ok none, p')
          | unknown_process ↦ (call_proc_state_changed sv x.id failed >> raise unknown_process) p'
          | raised text ↦ (call_proc_state_changed sv x.id failed >> raise (raised text)) p'
        ]
      ]
