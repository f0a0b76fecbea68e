-- ===== src/Router/Reach.antt =====
-- src/pyon/net/transport.py, class LocalRouter: the steps of the router, and the states that they
-- lead to.
use scioncc.Prelude.{ℕ, nat_eq, String, ◌≡◌, refl, Bool, Option, some, List, string_eq, arith}
use scioncc.Router.{
  Msg, Ctag, Dtag, Router, init, declare_exchange, delete_exchange, declare_named, declare_queue,
  delete_queue, bind, unbind,
}
use scioncc.Router.Consuming.{
  Delivery, publish, run_gl_msgs, start_consume, stop_consume, run_consumer, ack, reject, purge,
}
use scioncc.Router.Bound.{
  IsValid, IsValid-init, declare_exchange-IsValid, delete_exchange-IsValid, declare_named-IsValid,
  delete_queue-IsValid,
}
use scioncc.Router.Bind.{bind-IsValid, unbind-IsValid}
use scioncc.Router.Topology.{
  SameTopology-IsValid, run_gl_msgs-SameTopology, start_consume-SameTopology, ack-SameTopology,
  reject-SameTopology, purge-SameTopology, run_consumer-SameTopology, stop_consume-SameTopology,
}

module _ {Body Props : Type 0} where
  declare_queue-named :
      (r s : Router Body Props) (queue : Option String) (proposals : List String) (name : String)
      → declare_queue r queue proposals ≡ some (name, s)
      → s ≡ declare_named r name
  unfolding declare_queue
  declare_queue-named r s queue proposals name h = ground arith

  declare_queue-IsValid :
      (r s : Router Body Props) (queue : Option String) (proposals : List String) (name : String)
      → declare_queue r queue proposals ≡ some (name, s)
      → IsValid r
      → IsValid s
  declare_queue-IsValid r s queue proposals name h v =
      rw (declare_queue-named r s queue proposals name h) (declare_named-IsValid r name v)

  -- The calls on the router and the rounds of its greenlets; a call that raises leaves the state
  -- that it reached.
  pub data Step (pop : List ℕ → Option (ℕ × List ℕ)) (r : Router Body Props)
      : Router Body Props → Type 0 where
    step_declare_exchange : (x : String) → Step pop r (declare_exchange r x)
    step_delete_exchange : (x : String) → Step pop r (delete_exchange r x)
    step_declare_queue :
        (s : Router Body Props) (queue : Option String) (proposals : List String) (name : String)
        → declare_queue r queue proposals ≡ some (name, s)
        → Step pop r s
    step_delete_queue : (q : String) → Step pop r (delete_queue r q)
    step_bind : (x q b : String) → Step pop r (bind r x q b).1
    step_unbind : (x q b : String) → Step pop r (unbind r x q b).1
    step_publish : (m : Msg Body Props) → Step pop r (publish r m)
    step_run_gl_msgs : (s : Router Body Props) → run_gl_msgs r ≡ some s → Step pop r s
    step_start_consume :
        (q : String) (no_ack exclusive : Bool)
        → Step pop r (start_consume pop r q no_ack exclusive).1
    step_stop_consume : (ctag : Ctag) → Step pop r (stop_consume r ctag).1
    step_run_consumer :
        (s : Router Body Props) (q : String) (ctag : Ctag) (d : Option (Delivery Body Props))
        → run_consumer r q ctag ≡ some (d, s)
        → Step pop r s
    step_ack : (dtag : Dtag) → Step pop r (ack r dtag).1
    step_reject : (dtag : Dtag) (requeue : Bool) → Step pop r (reject r dtag requeue).1
    step_purge : (q : String) → Step pop r (purge r q).1

  pub data Reach (pop : List ℕ → Option (ℕ × List ℕ)) : Router Body Props → Type 0 where
    start : Reach pop init
    next : {r s : Router Body Props} → Reach pop r → Step pop r s → Reach pop s

  Step-IsValid :
      {pop : List ℕ → Option (ℕ × List ℕ)} {r s : Router Body Props}
      → IsValid r
      → Step pop r s
      → IsValid s
  unfolding publish
  Step-IsValid {r = r} v (step_declare_exchange x) = declare_exchange-IsValid r x v
  Step-IsValid {r = r} v (step_delete_exchange x) = delete_exchange-IsValid r x v
  Step-IsValid {r = r} v (step_declare_queue s queue proposals name e) =
      declare_queue-IsValid r s queue proposals name e v
  Step-IsValid {r = r} v (step_delete_queue q) = delete_queue-IsValid r q v
  Step-IsValid {r = r} v (step_bind x q b) = bind-IsValid r x q b v
  Step-IsValid {r = r} v (step_unbind x q b) = unbind-IsValid r x q b v
  Step-IsValid {r = r} v (step_publish m) =
      SameTopology-IsValid
        (record { exchanges = refl; queues = refl; bindings = refl; next = refl }) v
  Step-IsValid {r = r} v (step_run_gl_msgs s e) =
      SameTopology-IsValid (run_gl_msgs-SameTopology r s e) v
  Step-IsValid {pop} {r} v (step_start_consume q no_ack exclusive) =
      SameTopology-IsValid (start_consume-SameTopology pop r q no_ack exclusive) v
  Step-IsValid {r = r} v (step_stop_consume ctag) =
      SameTopology-IsValid (stop_consume-SameTopology r ctag) v
  Step-IsValid {r = r} v (step_run_consumer s q ctag d e) =
      SameTopology-IsValid (run_consumer-SameTopology r s q ctag d e) v
  Step-IsValid {r = r} v (step_ack dtag) = SameTopology-IsValid (ack-SameTopology r dtag) v
  Step-IsValid {r = r} v (step_reject dtag requeue) =
      SameTopology-IsValid (reject-SameTopology r dtag requeue) v
  Step-IsValid {r = r} v (step_purge q) = SameTopology-IsValid (purge-SameTopology r q) v

  -- Every state that a new router can reach by calls and rounds, in any order, is valid: each queue
  -- in a trie is declared and its binding on record, and no two names share a queue object.
  pub Reach-IsValid :
      (pop : List ℕ → Option (ℕ × List ℕ)) (r : Router Body Props) → Reach pop r → IsValid r
  Reach-IsValid pop r start = IsValid-init
  Reach-IsValid pop r (next {r = r'} before step) = Step-IsValid (Reach-IsValid pop r' before) step
