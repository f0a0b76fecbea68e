-- ===== src/Router/Bound.antt =====
-- src/pyon/net/transport.py, class LocalRouter: the well-formedness of its state, under the calls on
-- exchanges and queues.
use scioncc.Prelude.{
  ℕ, ◌<◌, String, ◌≡◌, true, some, List, eq_iff, arith, string_eq, nat_eq, list_eq, Bool-cases, inl,
  inr,
}
use scioncc.Prelude.Dict
use scioncc.Prelude.Dict.{get-put, get-remove}
use scioncc.Router.{
  Router, init, bindings_of, declare_exchange, delete_exchange, declare_named, delete_queue,
}
use scioncc.Router.Stored.{
  AreDistinct, stored, recorded, AreDistinct-remove_bindings, stored-remove_bindings,
  AreDistinct-new, stored-new, AreDistinct-delete, stored-delete,
}

module _ {Body Props : Type 0} where
  pub record IsValid (r : Router Body Props) : Type 0 where
    pub distinct : AreDistinct r.exchanges
    pub bound :
        (ex : String) (path : List String) (q : String)
        → stored r.exchanges ex path q ≡ true
        → (Dict.has_key r.queues q ≡ true) × (recorded (bindings_of r q) ex path ≡ true)
    pub own_object :
        (q p : String) (o : ℕ) → Dict.get r.queues q ≡ some o → Dict.get r.queues p ≡ some o → q ≡ p
    pub old_object : (q : String) (o : ℕ) → Dict.get r.queues q ≡ some o → o < r.next_object

  pub IsValid-init : IsValid (init {Body = Body} {Props = Props})
  unfolding init Dict.get
  IsValid-init = record {
    distinct = λ ex path. tt;
    bound = λ ex path q h. cc;
    own_object = λ q p o h k. cc;
    old_object = λ q o h. cc;
  }

  pub declare_exchange-IsValid :
      (r : Router Body Props) (x : String) → IsValid r → IsValid (declare_exchange r x)
  unfolding declare_exchange
  declare_exchange-IsValid r x v = elim (Bool-cases (Dict.has_key r.exchanges x)) [
    | inl old ↦ rw (old, declare_exchange) v
    | inr new ↦
        rw (new, declare_exchange)
          (record {
            distinct = AreDistinct-new r.exchanges v.distinct x;
            bound = λ ex path q h.
                v.bound ex path q (ground (arith, stored-new r.exchanges v.distinct x ex path q));
            own_object = v.own_object;
            old_object = v.old_object;
          })
  ]

  pub delete_exchange-IsValid :
      (r : Router Body Props) (x : String) → IsValid r → IsValid (delete_exchange r x)
  unfolding delete_exchange
  delete_exchange-IsValid r x v = elim (Bool-cases (Dict.has_key r.exchanges x)) [
    | inl old ↦
        rw (old, delete_exchange)
          (record {
            distinct = AreDistinct-delete r.exchanges v.distinct x;
            bound = λ ex path q h.
                v.bound ex path q
                  (ground (arith, stored-delete r.exchanges v.distinct x ex path q));
            own_object = v.own_object;
            old_object = v.old_object;
          })
    | inr new ↦ rw (new, delete_exchange) v
  ]

  pub declare_named-IsValid :
      (r : Router Body Props) (q : String) → IsValid r → IsValid (declare_named r q)
  unfolding declare_named
  declare_named-IsValid r q v = elim (Bool-cases (Dict.has_key r.queues q)) [
    | inl old ↦ rw (old, declare_named) v
    | inr new ↦
        rw (new, declare_named)
          (record {
            distinct = v.distinct;
            bound = λ ex path p h.
                ground (arith, v.bound ex path p h, get-put r.queues q p r.next_object);
            own_object = λ p p' o h h'. ground (
              arith,
              v.own_object p p' o,
              v.old_object p o,
              v.old_object p' o,
              get-put r.queues q p r.next_object,
              get-put r.queues q p' r.next_object,
              eq_iff q p,
              eq_iff q p',
            );
            old_object =
                λ p o h. ground (arith, v.old_object p o, get-put r.queues q p r.next_object);
          })
  ]

  pub delete_queue-IsValid :
      (r : Router Body Props) (q : String) → IsValid r → IsValid (delete_queue r q)
  unfolding delete_queue
  delete_queue-IsValid r q v = elim (Bool-cases (Dict.has_key r.queues q)) [
    | inl old ↦
        rw (old, delete_queue)
          (record {
            distinct = AreDistinct-remove_bindings q (bindings_of r q) r.exchanges v.distinct;
            bound = λ ex path p h.
                let gone =
                  stored-remove_bindings q (bindings_of r q) r.exchanges v.distinct ex path p in
                ground (
                  arith,
                  gone,
                  v.bound ex path p,
                  eq_iff q p,
                  get-remove r.queues q p,
                  get-remove r.bindings_by_queue q p,
                );
            own_object = λ p p' o h h'.
                ground
                  (arith, v.own_object p p' o, get-remove r.queues q p, get-remove r.queues q p');
            old_object = λ p o h. ground (arith, v.old_object p o, get-remove r.queues q p);
          })
    | inr new ↦ rw (new, delete_queue) v
  ]
