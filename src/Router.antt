-- ===== src/Router.antt =====
-- src/pyon/net/transport.py, class LocalRouter: the in-memory broker. Each method runs under the
-- router's locks, so it is one step. A gevent queue is an object that a name of `queues` refers to
-- and that a consumer's greenlet keeps after the name is deleted: `objects` holds the contents of
-- each, oldest item first, and `next_object` is the reference of the next one.
pub mod Consuming
pub mod Stored
pub mod Bound
pub mod Bind
pub mod Deliver
mod Topology
pub mod Reach
pub mod Settle
mod Tests
use scioncc.Prelude.{
  ℕ, ◌+◌, String, ◌≡◌, Bool, true, false, Option, none, some, List, [], ◌∷◌, ◌++◌, Eq, ◌==◌,
  if◌then◌else◌, is_some, nat_eq, string_eq, pair_eq, Result, ok, err, remove_first,
}
use scioncc.Prelude.Dict
use scioncc.Prelude.Dict.{Dict}
use scioncc.Topic.{TopicTrie, new_node, add_topic_tree, remove_topic_tree, get_all_matches}
use scioncc.IdPool
use scioncc.IdPool.{IdPool}

pub record Msg (Body Props : Type 0) : Type 0 where
  pub exchange : String
  pub routing_key : String
  pub body : Body
  pub props : Props

-- What a queue holds: a message, or the ConsumerClosedMessage that ends a consumer.
pub data Item (Body Props : Type 0) : Type 0 where
  message : Msg Body Props → Item Body Props
  consumer_closed : Item Body Props

-- A consumer tag "zctag-%s" is the pool's id in it, and a delivery tag "%s-%s" is the pair of the
-- consumer tag and the consumer's count.
abbrev pub Ctag : Type 0
Ctag = ℕ

abbrev pub Dtag : Type 0
Dtag = Ctag × ℕ

-- A registered consumer, with what its greenlet holds: the queue object, the count, and whether it
-- is still in its loop.
pub record Consumer : Type 0 where
  pub ctag : Ctag
  pub no_ack : Bool
  pub exclusive : Bool
  pub gqueue : ℕ
  pub cnt : ℕ
  pub running : Bool

pub data RouterError : Type 0 where
  unknown_exchange unknown_queue unknown_consumer ctag_in_use unknown_delivery no_routing_key :
      RouterError

pub record Router (Body Props : Type 0) : Type 0 where
  pub exchanges : Dict String (TopicTrie String)
  pub queues : Dict String ℕ
  pub objects : ℕ → List (Item Body Props)
  pub next_object : ℕ
  pub bindings_by_queue : Dict String (List (String × String))
  pub consumers : Dict String (List Consumer)
  pub consumers_by_ctag : Dict Ctag String
  pub ctag_pool : IdPool
  pub unacked : Dict Dtag (Ctag × String × Msg Body Props)
  pub incoming : List (Msg Body Props)
  pub errors : List RouterError

abbrev pub Outcome : Type 0 → Type 0 → Type 0 → Type 0
Outcome Body Props A = Result RouterError A × Router Body Props

-- The loop that proposes names until one is not in use. `proposals` are the names that the calls
-- of uuid4 give in turn; `none` means that they do not suffice.
unfoldable pub propose : Dict String ℕ → List String → Option String
propose queues [] = none
propose queues (proposed ∷ proposals) =
    if Dict.has_key queues proposed then propose queues proposals else some proposed

-- `if ex in self._exchanges: self._exchanges[ex].remove_topic_tree(binding, queue)`
unfoldable pub remove_binding :
    Dict String (TopicTrie String) → String → String → String → Dict String (TopicTrie String)
remove_binding exchanges queue ex binding = elim (Dict.get exchanges ex) [
  | none ↦ exchanges
  | some trie ↦ Dict.put exchanges ex (remove_topic_tree trie binding queue)
]

unfoldable pub remove_bindings :
    Dict String (TopicTrie String)
    → String
    → List (String × String)
    → Dict String (TopicTrie String)
unfolding remove_binding
remove_bindings exchanges queue [] = exchanges
remove_bindings exchanges queue ((ex, binding) ∷ bs) =
    remove_bindings (remove_binding exchanges queue ex binding) queue bs

module _ {Body Props : Type 0} where
  unfoldable pub init : Router Body Props
  init = record {
    exchanges = [];
    queues = [];
    objects = λ o. [];
    next_object = 0;
    bindings_by_queue = [];
    consumers = [];
    consumers_by_ctag = [];
    ctag_pool = IdPool.init;
    unacked = [];
    incoming = [];
    errors = [];
  }

  -- Reading a `defaultdict(list)`.
  abbrev pub bindings_of : Router Body Props → String → List (String × String)
  bindings_of r q = elim (Dict.get r.bindings_by_queue q) [ none ↦ [] | some bs ↦ bs ]

  unfoldable pub declare_exchange : Router Body Props → String → Router Body Props
  declare_exchange r exchange =
      if Dict.has_key r.exchanges exchange
      then r
      else record r { exchanges = Dict.put r.exchanges exchange (new_node none) }

  unfoldable pub delete_exchange : Router Body Props → String → Router Body Props
  delete_exchange r exchange =
      if Dict.has_key r.exchanges exchange
      then record r { exchanges = Dict.remove r.exchanges exchange }
      else r

  -- declare_queue with a name.
  unfoldable pub declare_named : Router Body Props → String → Router Body Props
  declare_named r queue = if Dict.has_key r.queues queue then r else record r {
    queues = Dict.put r.queues queue r.next_object;
    objects = λ o. if o == r.next_object then [] else r.objects o;
    next_object = r.next_object + 1;
  }

  unfoldable pub declare_queue :
      Router Body Props → Option String → List String → Option (String × Router Body Props)
  declare_queue r queue proposals =
      let anonymous : Option (String × Router Body Props) = elim (propose r.queues proposals) [
        | none ↦ none
        | some proposed ↦ some (proposed, declare_named r proposed)
      ] in
      elim queue [
        | none ↦ anonymous
        | some name ↦ if name == "" then anonymous else some (name, declare_named r name)
      ]

  unfoldable pub delete_queue : Router Body Props → String → Router Body Props
  delete_queue r queue =
      if Dict.has_key r.queues queue
      then record r {
        queues = Dict.remove r.queues queue;
        exchanges = remove_bindings r.exchanges queue (bindings_of r queue);
        bindings_by_queue = Dict.remove r.bindings_by_queue queue;
      }
      else r

  unfoldable pub bind : Router Body Props → String → String → String → Outcome Body Props (Unit {0})
  bind r exchange queue binding = elim (Dict.get r.exchanges exchange) [
    | none ↦ (err unknown_exchange, r)
    | some trie ↦
        if Dict.has_key r.queues queue
        then (
          ok tt,
          record r {
            exchanges = Dict.put r.exchanges exchange (add_topic_tree trie binding queue);
            bindings_by_queue =
                Dict.put r.bindings_by_queue queue
                  (bindings_of r queue ++ (exchange, binding) ∷ []);
          },
        )
        else (err unknown_queue, r)
  ]

  unfoldable pub unbind :
      Router Body Props → String → String → String → Outcome Body Props (Unit {0})
  unbind r exchange queue binding = elim (Dict.get r.exchanges exchange) [
    | none ↦ (err unknown_exchange, r)
    | some trie ↦
        if Dict.has_key r.queues queue
        then (
          ok tt,
          record r {
            exchanges = Dict.put r.exchanges exchange (remove_topic_tree trie binding queue);
            bindings_by_queue =
                Dict.put r.bindings_by_queue queue
                  (remove_first (bindings_of r queue) (exchange, binding));
          },
        )
        else (err unknown_queue, r)
  ]
