-- ===== src/Router/Tests.antt =====
-- A router with one exchange and two queues, and the theorems at it.
use scioncc.Prelude.{
  ℕ, String, ◌≡◌, refl, Option, none, some, List, [], ◌∷◌, ◌++◌, string_eq, nat_eq, ok, err, true,
  false, Bool, contains, append_new, remove_first, dedupe,
}
use scioncc.Prelude.Dict
use scioncc.Topic.{
  TopicTrie, split, get_child, update_child, update_path, suffixes, node_matches, child_matches,
  add_topic_tree, remove_topic_tree, get_all_matches, new_node,
}
use scioncc.Router.{
  unknown_delivery, Msg, message, Router, init, declare_exchange, declare_named, declare_queue,
  bind, propose, delete_queue, remove_bindings, remove_binding,
}
use scioncc.Router.Consuming.{
  route, deliver_all, publish, run_gl_msgs, Delivery, start_consume, run_consumer, ack, reject,
}
use scioncc.IdPool
use scioncc.Router.Settle.{carried, run_consumer_settled}
use scioncc.Router.Bound.{IsValid}
use scioncc.Router.Deliver.{HasMatch, route_delivers}
use scioncc.Router.Reach.{
  step_declare_exchange, step_declare_queue, step_bind, step_delete_queue, Reach, start, next,
  Reach-IsValid,
}

program : Unit {0}
unfolding split get_child update_child update_path suffixes node_matches child_matches
    add_topic_tree remove_topic_tree get_all_matches contains append_new remove_first dedupe
    Dict.get Dict.put Dict.remove init declare_exchange declare_named declare_queue bind propose
    delete_queue remove_bindings remove_binding route deliver_all publish run_gl_msgs
program = tt

abbrev Broker : Type 0
Broker = Router String ℕ

abbrev pop : List ℕ → Option (ℕ × List ℕ)
pop [] = none
pop (x ∷ xs) = some (x, xs)

abbrev declared : Broker
declared = declare_named (declare_named (declare_exchange init "x") "q1") "q2"

abbrev bound : Broker
bound = (bind (bind declared "x" "q1" "a.*").1 "x" "q2" "b").1

abbrev msg : Msg String ℕ
msg = record { exchange = "x"; routing_key = "a.b"; body = "hello"; props = 3 }

declared-Reach : Reach pop declared
unfolding program
declared-Reach =
    next
      (next (next start (step_declare_exchange "x")) (
        step_declare_queue (declare_named (declare_exchange init "x") "q1") (some "q1") [] "q1"
          refl))
      (step_declare_queue declared none ("q1" ∷ "q2" ∷ []) "q2" refl)

bound-Reach : Reach pop bound
bound-Reach = next (next declared-Reach (step_bind "x" "q1" "a.*")) (step_bind "x" "q2" "b")

Reach-IsValid_example : IsValid (delete_queue bound "q1")
Reach-IsValid_example =
    Reach-IsValid pop (delete_queue bound "q1") (next bound-Reach (step_delete_queue "q1"))

routed : ((route bound msg).1.objects 0 ≡ message msg ∷ []) × ((route bound msg).1.objects 1 ≡ [])
unfolding program
routed = (refl, refl)

abbrev trie : TopicTrie String
trie = add_topic_tree (add_topic_tree (new_node none) "a.*" "q1") "b" "q2"

route_delivers_example :
    ((route bound msg).0 ≡ ok tt)
    × ((q : String) (o : ℕ)
        → Dict.get bound.queues q ≡ some o
        → (HasMatch bound "x" "a.b" q
            → (route bound msg).1.objects o ≡ bound.objects o ++ message msg ∷ [])
          × (¬ HasMatch bound "x" "a.b" q → (route bound msg).1.objects o ≡ bound.objects o))
    × ((route bound msg).1.exchanges ≡ bound.exchanges)
    × ((route bound msg).1.queues ≡ bound.queues)
    × ((route bound msg).1.bindings_by_queue ≡ bound.bindings_by_queue)
unfolding program
route_delivers_example = route_delivers bound msg trie (Reach-IsValid pop bound bound-Reach) refl

-- The message is routed to the first queue, where a consumer waits.
abbrev consuming : Broker
consuming = (start_consume pop (route bound msg).1 "q1" false false).1

abbrev delivery : Delivery String ℕ
delivery = record {
  consumer_tag = 1;
  exchange = "x";
  routing_key = "a.b";
  delivery_tag = (1, 0);
  headers = 3;
  body = "hello";
}

abbrev delivered : Broker
unfolding program start_consume IdPool.get_id run_consumer
delivered = elim (run_consumer consuming "q1" 1) [ none ↦ consuming | some (d, s) ↦ s ]

run_consumer_settled_example :
    ((ack delivered (1, 0)).0 ≡ ok tt)
    × ((ack (ack delivered (1, 0)).1 (1, 0)).0 ≡ err unknown_delivery)
    × ((reject delivered (1, 0) false).0 ≡ ok tt)
    × ((again : Bool) → (ack (reject delivered (1, 0) again).1 (1, 0)).0 ≡ err unknown_delivery)
    × ((o : ℕ)
        → Dict.get delivered.queues "q1" ≡ some o
        → ((reject delivered (1, 0) true).0 ≡ ok tt)
          × ((reject delivered (1, 0) true).1.objects o
              ≡ delivered.objects o ++ message (carried delivery) ∷ []))
unfolding program start_consume IdPool.get_id run_consumer
run_consumer_settled_example = run_consumer_settled consuming delivered "q1" 1 delivery refl
