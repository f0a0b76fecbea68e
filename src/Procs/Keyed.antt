-- ===== src/Procs/Keyed.antt =====
-- src/pyon/container/procs.py: every process of the registry stands under its own id, whatever the
-- services answer and whichever calls raise.
use scioncc.Prelude.{
  ◌≡◌, refl, String, Bool, not, ◌&&◌, Bool-cases, Option-cases, inl, inr, Option, none, some,
  is_some, List, [], ◌∷◌, ◌++◌, ◌==◌, string_eq, nat_eq, modify, when, pure, ◌>>=◌, ◌>>◌, arith,
}
use scioncc.Prelude.Dict
use scioncc.Prelude.Dict.{get-put, get-remove}
use scioncc.Channel.{or_default}
use scioncc.Procs.{
  ProcType, service, stream_process, agent, standalone, immediate, simple, type_eq, Process,
  ProcessState, running, terminating, terminated, process_resource, service_resource, Services,
  ProcManager, Method, ask, swallow,
}
use scioncc.Procs.Registering.{
  call_all, set_service, found_service, define_service, set_process, enter, call_proc_state_changed,
  register_resource, service_id, register_type, register_process,
}
use scioncc.Procs.Terminating.{
  left_service, leave, delete_safe, unregister_resource, unregister_type, unregister_process,
  terminate_process,
}
use scioncc.Procs.Stopping.{IsKeyed}
use scioncc.Procs.Preserving.{
  Preserves, Preserves-bind, Preserves-then, Preserves-when, Preserves-swallow, Preserves-ask,
  Keyed-set_process, Keyed-enter, Keyed-leave,
}

module _ {W : Type 0} (sv : Services W) where
  Preserves-called :
      (cbs : List String) (pid : String) (s : ProcessState) → Preserves (call_all sv cbs pid s)
  unfolding call_all
  Preserves-called [] pid s = λ p v. v
  Preserves-called (cb ∷ cbs) pid s =
      let noting : Method W (Unit {0}) =
        modify (λ p. record p { notified = p.notified ++ (cb, pid, s) ∷ [] }) in
      Preserves-then (noting >> ask (sv.call_back cb pid s)) (call_all sv cbs pid s)
        (Preserves-then noting (ask (sv.call_back cb pid s)) (λ p v. v)
          (Preserves-ask (sv.call_back cb pid s)))
        (Preserves-called cbs pid s)

  Preserves-changed :
      (pid : String) (s : ProcessState) → Preserves (call_proc_state_changed sv pid s)
  unfolding call_proc_state_changed
  Preserves-changed pid s =
      Preserves-then (λ p. call_all sv p.state_change_callbacks pid s p)
        (λ p. swallow (when sv.publish_events (ask (sv.publish_process_event pid s)) p))
        (λ p v. Preserves-called p.state_change_callbacks pid s p v)
        (Preserves-swallow (when sv.publish_events (ask (sv.publish_process_event pid s))) (
          Preserves-when sv.publish_events (ask (sv.publish_process_event pid s))
            (Preserves-ask (sv.publish_process_event pid s))))

  Preserves-resource : (x : Process) → Preserves (register_resource sv x)
  unfolding register_resource
  Preserves-resource x =
      elim (Bool-cases (not (x.proc_type == immediate) && sv.has_resource_registry)) [
        | inl h ↦ λ p v. rw h (with_registry p v)
        | inr h ↦
            λ p v. rw h (Keyed-set_process x.id (λ y. record y { res_id = none }) p (λ y. refl) v)
      ]
    where
      with_registry : Preserves (
          ask (sv.create (process_resource x)) >>= λ proc_id.
          modify (set_process x.id (λ y. record y { res_id = some proc_id }))
          >> (λ p. ask (sv.create_association p.cc_id "hasProcess" proc_id) p)
          >> pure (some proc_id))
      with_registry =
          Preserves-bind (ask (sv.create (process_resource x))) _ (λ p v. v)
            (λ proc_id.
              Preserves-then _ (pure (some proc_id))
                (Preserves-then
                  (modify (set_process x.id (λ y. record y { res_id = some proc_id })))
                  (λ p. ask (sv.create_association p.cc_id "hasProcess" proc_id) p)
                  (λ p v.
                    Keyed-set_process x.id (λ y. record y { res_id = some proc_id }) p (λ y. refl)
                      v)
                  (λ p v. v))
                (λ p v. v))

  Preserves-set_service : (x : Process) (s : String) → Preserves (set_service sv x s)
  Preserves-set_service x s p v =
      Keyed-set_process x.id (λ y. record y { svc_id = some s }) p (λ y. refl) v

  Preserves-define_service :
      (s : String) (svcdef_list : List String) → Preserves (define_service sv s svcdef_list)
  unfolding define_service
  Preserves-define_service s [] p v = v
  Preserves-define_service s (d ∷ more) p v = v

  Preserves-found_service :
      (x : Process) (service_list : List String) → Preserves (found_service sv x service_list)
  unfolding found_service
  Preserves-found_service x (s ∷ more) = Preserves-set_service x s
  Preserves-found_service x [] =
      Preserves-bind (ask (sv.create (service_resource x.name))) _ (λ p v. v)
        (λ s.
          Preserves-bind (set_service sv x s >> ask (sv.find_resources "ServiceDefinition" x.name))
            _
            (Preserves-then (set_service sv x s)
              (ask (sv.find_resources "ServiceDefinition" x.name)) (Preserves-set_service x s)
              (λ p v. v))
            (λ defs.
              Preserves-then (define_service sv s defs) (pure s) (Preserves-define_service s defs)
                (λ p v. v)))

  Preserves-service_id : (x : Process) → Preserves (service_id sv x)
  unfolding service_id
  Preserves-service_id x =
      Preserves-bind (ask (sv.find_resources "Service" x.name)) (found_service sv x) (λ p v. v)
        (Preserves-found_service x)

  Preserves-register_type :
      (x : Process) (k : ProcType) (proc_id : Option String)
      → Preserves (register_type sv (record x { proc_type = k }) proc_id)
  unfolding register_type
  Preserves-register_type x service proc_id = Preserves-when sv.has_resource_registry _ (
      Preserves-bind (service_id sv (record x { proc_type = service }))
        (λ s. ask (sv.create_association s "hasProcess" (or_default proc_id "")))
        (Preserves-service_id (record x { proc_type = service })) (λ s p v. v))
  Preserves-register_type x agent proc_id =
      Preserves-when sv.has_directory (ask (sv.register "/Agents" (record x { proc_type = agent })))
        (λ p v. v)
  Preserves-register_type x stream_process proc_id = λ p v. v
  Preserves-register_type x standalone proc_id = λ p v. v
  Preserves-register_type x immediate proc_id = λ p v. v
  Preserves-register_type x simple proc_id = λ p v. v

  register_process-IsKeyed :
      (x : Process) (p : ProcManager W)
      → IsKeyed p.procs
      → IsKeyed (register_process sv x p).1.procs
  unfolding register_process
  register_process-IsKeyed x =
      Preserves-bind (modify (enter x) >> register_resource sv x)
        (λ proc_id. register_type sv x proc_id >> call_proc_state_changed sv x.id running)
        (Preserves-then (modify (enter x)) (register_resource sv x) (Keyed-enter x)
          (Preserves-resource x))
        (λ proc_id.
          Preserves-then (register_type sv x proc_id) (call_proc_state_changed sv x.id running)
            (Preserves-register_type x x.proc_type proc_id) (Preserves-changed x.id running))

  Preserves-left_service :
      (x : Process) (svcproc_list : List String) → Preserves (left_service sv x svcproc_list)
  unfolding left_service
  Preserves-left_service x [] p v = v
  Preserves-left_service x (s ∷ more) p v = v

  Preserves-unregister_type :
      (x : Process) (k : ProcType) → Preserves (unregister_type sv (record x { proc_type = k }))
  unfolding unregister_type
  Preserves-unregister_type x service = Preserves-when sv.has_resource_registry _ (
      Preserves-bind (ask (sv.find_processes x.svc_id)) (left_service sv x) (λ p v. v)
        (Preserves-left_service x))
  Preserves-unregister_type x agent =
      Preserves-when sv.has_directory
        (modify (λ p. record p { world = sv.unregister_safe "/Agents" x.id p.world })) (λ p v. v)
  Preserves-unregister_type x stream_process = λ p v. v
  Preserves-unregister_type x standalone = λ p v. v
  Preserves-unregister_type x immediate = λ p v. v
  Preserves-unregister_type x simple = λ p v. v

  Preserves-unregister : (pid : String) (x : Process) → Preserves (unregister_process sv pid x)
  unfolding unregister_process unregister_resource
  Preserves-unregister pid x =
      Preserves-then (unregister_resource sv x >> unregister_type sv x) (modify (leave pid x))
        (Preserves-then (unregister_resource sv x) (unregister_type sv x)
          (Preserves-when (is_some x.res_id && sv.has_resource_registry) (delete_safe sv x.res_id)
            (λ p v. v))
          (Preserves-unregister_type x x.proc_type))
        (Keyed-leave pid x)

  terminate_process-IsKeyed :
      (pid : String) (b : Bool) (p : ProcManager W)
      → IsKeyed p.procs
      → IsKeyed (terminate_process sv pid b p).1.procs
  unfolding terminate_process
  terminate_process-IsKeyed pid b p v = elim (Option-cases (Dict.get p.procs pid)) [
    | inl h ↦ rw (h, terminate_process) v
    | inr (x, h) ↦ rw (h, terminate_process) (known x p v)
  ]
    where
      known :
          (x : Process)
          → Preserves (
              when b (call_proc_state_changed sv pid terminating)
              >> ask (sv.quit x)
              >> unregister_process sv pid x
              >> when b (call_proc_state_changed sv pid terminated))
      known x =
          Preserves-then
            (when b (call_proc_state_changed sv pid terminating)
              >> ask (sv.quit x)
              >> unregister_process sv pid x)
            (when b (call_proc_state_changed sv pid terminated))
            (Preserves-then (when b (call_proc_state_changed sv pid terminating) >> ask (sv.quit x))
              (unregister_process sv pid x)
              (Preserves-then (when b (call_proc_state_changed sv pid terminating))
                (ask (sv.quit x))
                (Preserves-when b (call_proc_state_changed sv pid terminating)
                  (Preserves-changed pid terminating))
                (λ p v. v))
              (Preserves-unregister pid x))
            (Preserves-when b (call_proc_state_changed sv pid terminated)
              (Preserves-changed pid terminated))

  -- One call on the manager.
  pub data Call : ProcManager W → ProcManager W → Type 0 where
    registers : {p : ProcManager W} (x : Process) → Call p (register_process sv x p).1
    terminates :
        {p : ProcManager W} (pid : String) (b : Bool) → Call p (terminate_process sv pid b p).1

  -- The managers that calls lead to from one without processes.
  pub data Runs : ProcManager W → Type 0 where
    empty : {p : ProcManager W} → p.procs ≡ [] → Runs p
    next : {p q : ProcManager W} → Runs p → Call p q → Runs q

  Call-IsKeyed : {p q : ProcManager W} → IsKeyed p.procs → Call p q → IsKeyed q.procs
  Call-IsKeyed {p = p} v (registers x) = register_process-IsKeyed x p v
  Call-IsKeyed {p = p} v (terminates pid b) = terminate_process-IsKeyed pid b p v

  nothing : (d : Dict.Dict String Process) → d ≡ [] → IsKeyed d
  unfolding Dict.get
  nothing [] e k x h = ground (arith, h)
  nothing (y ∷ d) e k x h = ground (arith, e)

  -- However processes were registered and terminated since the registry was empty, whatever the
  -- services answered and whichever calls raised, every process stands under its own id.
  pub Runs-IsKeyed : (p : ProcManager W) → Runs p → IsKeyed p.procs
  Runs-IsKeyed p (empty e) = nothing p.procs e
  Runs-IsKeyed p (next {p = p'} before call) = Call-IsKeyed (Runs-IsKeyed p' before) call
