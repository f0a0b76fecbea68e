-- ===== src/Procs/Quitting.antt =====
-- src/pyon/container/procs.py: what terminating one process leaves in the registry.
use scioncc.Prelude.{
  ◌≡◌, refl, String, Bool, true, false, ◌&&◌, Bool-cases, List-cases, inl, inr, Option, some,
  is_some, List, [], ◌∷◌, ◌++◌, nat_eq, string_eq, Result, ok, err, when, arith,
}
use scioncc.Prelude.Dict
use scioncc.Prelude.Dict.{get-remove}
use scioncc.Procs.{
  ProcType, service, stream_process, agent, standalone, immediate, simple, Process, ProcessState,
  terminating, terminated, ProcError, Services, ProcManager, ask, swallow,
}
use scioncc.Procs.Registering.{call_all, call_proc_state_changed}
use scioncc.Procs.Terminating.{
  leave, unregister_resource, unregister_type, unregister_process, terminate_process,
}

module _ {W : Type 0} where
  -- Services that answer what the manager asks while it terminates a process, and callbacks that
  -- return.
  pub record IsWilling (sv : Services W) : Type 0 where
    pub calls : (cb pid : String) (s : ProcessState) (w : W) → (sv.call_back cb pid s w).0 ≡ ok tt
    pub finds :
        (svc : Option String) (w : W) → (ids : List String) × ((sv.find_processes svc w).0 ≡ ok ids)

  -- The registry, without what is known of the outside.
  abbrev pub registry : ProcManager W → Dict.Dict String Process × Dict.Dict String String
  registry p = (p.procs, p.procs_by_name)

  -- A step that returns and leaves the registry.
  abbrev Keeps : ProcManager W → Result ProcError (Unit {0}) × ProcManager W → Type 0
  Keeps p r = (r.0 ≡ ok tt) × (registry r.1 ≡ registry p)

module _ {W : Type 0} (sv : Services W) (t : IsWilling sv) where
  called-Keeps :
      (cbs : List String) (pid : String) (s : ProcessState) (p : ProcManager W)
      → Keeps p (call_all sv cbs pid s p)
  unfolding call_all
  called-Keeps [] pid s p = (refl, refl)
  called-Keeps (cb ∷ cbs) pid s p =
      let told : ProcManager W = record p { notified = p.notified ++ (cb, pid, s) ∷ [] } in
      ground (
        arith,
        t.calls cb pid s p.world,
        called-Keeps cbs pid s (record told { world = (sv.call_back cb pid s p.world).1 }),
      )

  published-Keeps :
      (pid : String) (s : ProcessState) (p : ProcManager W)
      → Keeps p (swallow (when sv.publish_events (ask (sv.publish_process_event pid s)) p))
  published-Keeps pid s p = elim (Bool-cases sv.publish_events) [
    | inl e ↦ ground (arith, e)
    | inr e ↦ ground (arith, e)
  ]

  changed-Keeps :
      (pid : String) (s : ProcessState) (p : ProcManager W)
      → Keeps p (call_proc_state_changed sv pid s p)
  unfolding call_proc_state_changed
  changed-Keeps pid s p =
      let q = (call_all sv p.state_change_callbacks pid s p).1 in
      ground (arith, called-Keeps p.state_change_callbacks pid s p, published-Keeps pid s q)

  notified-Keeps :
      (b : Bool) (pid : String) (s : ProcessState) (p : ProcManager W)
      → Keeps p (when b (call_proc_state_changed sv pid s) p)
  notified-Keeps true pid s p = changed-Keeps pid s p
  notified-Keeps false pid s p = (refl, refl)

  resource-Keeps : (x : Process) (p : ProcManager W) → Keeps p (unregister_resource sv x p)
  unfolding unregister_resource
  resource-Keeps x p = elim (Bool-cases (is_some x.res_id && sv.has_resource_registry)) [
    | inl h ↦ ground (arith, h)
    | inr h ↦ ground (arith, h)
  ]

  service-Keeps :
      (x : Process) (p : ProcManager W)
      → Keeps p (unregister_type sv (record x { proc_type = service }) p)
  unfolding unregister_type
  service-Keeps x p =
      let (ids, found) = t.finds x.svc_id p.world in
      elim (Bool-cases sv.has_resource_registry) [
        | inl h ↦ elim (List-cases ids) [
          | inl e ↦ ground (arith, h, found, e)
          | inr (y, ys, e) ↦ ground (arith, h, found, e)
        ]
        | inr h ↦ ground (arith, h)
      ]

  on_type-Keeps :
      (x : Process) (k : ProcType) (p : ProcManager W)
      → Keeps p (unregister_type sv (record x { proc_type = k }) p)
  unfolding unregister_type
  on_type-Keeps x service p = service-Keeps x p
  on_type-Keeps x agent p = elim (Bool-cases sv.has_directory) [
    | inl h ↦ ground (arith, h)
    | inr h ↦ ground (arith, h)
  ]
  on_type-Keeps x stream_process p = (refl, refl)
  on_type-Keeps x standalone p = (refl, refl)
  on_type-Keeps x immediate p = (refl, refl)
  on_type-Keeps x simple p = (refl, refl)

  -- What is left of the registry once a process has left it.
  abbrev pub without :
      String → Process → ProcManager W → Dict.Dict String Process × Dict.Dict String String
  without pid x p = (Dict.remove p.procs pid, Dict.remove p.procs_by_name x.proc_name)

  unregister_process-without :
      (pid : String) (x : Process) (p : ProcManager W)
      → ((unregister_process sv pid x p).0 ≡ ok tt)
        × (registry (unregister_process sv pid x p).1 ≡ without pid x p)
  unfolding unregister_process leave
  unregister_process-without pid x p =
      let first = resource-Keeps x p in
      let second = on_type-Keeps x x.proc_type (unregister_resource sv x p).1 in
      ground (arith, first, second)

  -- The two outcomes of a process that is known.
  pub terminate_process_known :
      (pid : String) (notify : Bool) (p : ProcManager W) (x : Process)
      → Dict.get p.procs pid ≡ some x
      → ((quits : (w : W) → (sv.quit x w).0 ≡ ok tt)
          → ((terminate_process sv pid notify p).0 ≡ ok tt)
            × (registry (terminate_process sv pid notify p).1 ≡ without pid x p))
        × ((e : ProcError) (raises : (w : W) → (sv.quit x w).0 ≡ err e)
            → ((terminate_process sv pid notify p).0 ≡ err e)
              × (registry (terminate_process sv pid notify p).1 ≡ registry p))
  unfolding terminate_process
  terminate_process_known pid notify p x known =
      let first = notified-Keeps notify pid terminating p in
      let told : ProcManager W = (when notify (call_proc_state_changed sv pid terminating) p).1 in
      let gone : ProcManager W = record told { world = (sv.quit x told.world).1 } in
      let second = unregister_process-without pid x gone in
      let third = notified-Keeps notify pid terminated (unregister_process sv pid x gone).1 in
      (
        λ quits. (let q = quits told.world in ground (arith, known, first, q, second, third)),
        λ e raises. (let q = raises told.world in ground (arith, known, first, q)),
      )
