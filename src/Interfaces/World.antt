-- ===== src/Interfaces/World.antt =====
-- The threads of Agent/src/c/ThreadSync_PriorityProducer.c, interleaved in any order, with the message
-- store of Agent/src/c/MessageStore.c that they call. A call of the store is one step: it is made under
-- the mutexes of the entries that it is for. A call that adds to the group that is collected is one step
-- too; one thread at a time collects a group, as the agent's own thread and then the client's do, and
-- all others go on meanwhile.
use jvmheap_scan.Base.{
  ℕ, ◌≡◌, refl, Bool, true, false, Option, none, some, List, [], ◌∷◌, ◌++◌, update,
}
use jvmheap_scan.Store.Memory.{Ptr, Store, Run, ok, fault, out_of_fuel, Cmd, get, and_then, ◌>>=◌}
use jvmheap_scan.Store.Seg.{Item}
use jvmheap_scan.Store.Requests.{Request, send, retrieve}
use jvmheap_scan.Store.Grouped.{joined}
use jvmheap_scan.Store.{
  create_msg_node, merge_msg_as_string, on_flush_msg, on_start_msg_grp, on_include_message,
  on_flush_msg_grp, on_queue_message, on_retrieve_message, Retrieved,
}
use jvmheap_scan.Sync.{Side, Shared, space_id}
use jvmheap_scan.Sync.System.{
  Pc, idle, storing, Move, ConsumerPc, consuming, Consume, System, initial,
}
use jvmheap_scan.Sync.Entry.{location}

-- The node that a producer has in hand, and its message.
abbrev pub Hand : Type 0
Hand = Option (Ptr × Item)

abbrev pub Group : Type 0
Group = Option (ℕ × List Item)

-- `onFlushMsgGrp` up to `onProduce`.
unfoldable pub close_group : List ℕ → Cmd Ptr
unfolding merge_msg_as_string create_msg_node
close_group sep = do
  s ← get
  (text, size) ← merge_msg_as_string sep s.cur_msg_grp
  create_msg_node text size

close_group-on_flush_msg_grp :
    (produce : Ptr → Cmd (Unit {0})) (sep : List ℕ) (s : Store)
    → on_flush_msg_grp produce sep s ≡ (close_group sep >>= produce) s
unfolding on_flush_msg_grp on_flush_msg close_group
close_group-on_flush_msg_grp produce sep s = cases (merge_msg_as_string sep s.cur_msg_grp s)
  where
    cases :
        (r : Run (List ℕ × ℕ))
        → and_then r (λ m. on_flush_msg produce m.0 m.1)
          ≡ and_then (and_then r (λ m. create_msg_node m.0 m.1)) produce
    cases (ok m t) = refl
    cases fault = refl
    cases out_of_fuel = refl

-- `asked` are the requests that have come to the store, in the order in which they did, and `answers`
-- what it has answered. `group` is who collects a group, and the messages in it; `included` are all
-- messages that have been put into groups.
pub record World : Type 0 where
  pub system : System
  pub store : Store
  pub hand : ℕ → Hand
  pub group : Group
  pub included : List Item
  pub asked : List Request
  pub answers : List Retrieved

-- A producer goes into `onProduce` with a node, and leaves the entry when `STORE_MSG` has taken it.
abbrev pub may_move : Pc → Hand → Bool
may_move idle none = false
may_move (storing _ _) (some _) = false
may_move _ _ = true

-- The steps: `onFlushMsg` up to `onProduce`, `onProduce`, its call of `STORE_MSG`, a group from its
-- start to `onProduce`, the consumer, and the calls of `retrieveMsg` that it makes for the space that it has been given.
pub data Deed (z : World) : World → Type 0 where
  create :
      (i : ℕ) (m : Item) {p : Ptr} {t : Store}
      → z.system.pc i ≡ idle
      → z.hand i ≡ none
      → create_msg_node m.text m.size z.store ≡ ok p t
      → Deed z (record z { store = t; hand = update z.hand i (some (p, m)) })
  produce :
      (i : ℕ) {m : Shared} {c : Pc}
      → may_move (z.system.pc i) (z.hand i) ≡ true
      → Move i z.system.mem (z.system.pc i) m c
      → Deed z (record z { system = record z.system { mem = m; pc = update z.system.pc i c } })
  put :
      (i : ℕ) {s e : Side} {p : Ptr} {m : Item} {t : Store}
      → z.system.pc i ≡ storing s e
      → z.hand i ≡ some (p, m)
      → on_queue_message (location s e) p z.store ≡ ok tt t
      → Deed z (record z {
        store = t;
        hand = update z.hand i none;
        asked = z.asked ++ (send (location s e) m ∷ []);
      })
  start_group :
      (i : ℕ) {t : Store}
      → z.group ≡ none
      → on_start_msg_grp z.store ≡ ok tt t
      → Deed z (record z { store = t; group = some (i, []) })
  include :
      (i : ℕ) (m : Item) (f : Ptr → Cmd (Unit {0})) {ms : List Item} {t : Store}
      → z.group ≡ some (i, ms)
      → on_include_message f m.text m.size false z.store ≡ ok tt t
      → Deed z (record z {
        store = t;
        group = some (i, ms ++ (m ∷ []));
        included = z.included ++ (m ∷ []);
      })
  close :
      (i : ℕ) (sep : List ℕ) {ms : List Item} {p : Ptr} {t : Store}
      → z.system.pc i ≡ idle
      → z.hand i ≡ none
      → z.group ≡ some (i, ms)
      → close_group sep z.store ≡ ok p t
      → Deed z
          (record z { store = t; hand = update z.hand i (some (p, joined sep ms)); group = none })
  consume :
      {m : Shared} {c : ConsumerPc}
      → Consume z.system.mem z.system.consumer_pc m c
      → Deed z (record z { system = record z.system { mem = m; consumer_pc = c } })
  read :
      (sep : List ℕ) {s : Side} {r : Retrieved} {t : Store}
      → z.system.consumer_pc ≡ consuming s
      → on_retrieve_message sep (space_id s) z.store ≡ ok r t
      → Deed z (record z {
        store = t;
        asked = z.asked ++ (retrieve sep (space_id s) ∷ []);
        answers = z.answers ++ (r ∷ []);
      })

-- Nobody has done anything yet.
abbrev pub world_from : Store → World
world_from t = record {
  system = initial;
  store = t;
  hand = λ _. none;
  group = none;
  included = [];
  asked = [];
  answers = [];
}

-- What can come of a store.
pub data Becomes (t : Store) : World → Type 0 where
  begin : Becomes t (world_from t)
  then_deed : {y z : World} → Becomes t y → Deed y z → Becomes t z
