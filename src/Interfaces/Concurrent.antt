-- ===== src/Interfaces/Concurrent.antt =====
-- What the message store has answered in any interleaving of the threads of Interfaces/World.
use jvmheap_scan.Base.{ℕ, ◌<◌, ◌≡◌, ◌≢◌, List, ◌%◌, ◌==◌, false, some}
use jvmheap_scan.Store.Memory.{Ptr, null, Store, ok}
use jvmheap_scan.Store.Seg.{Item}
use jvmheap_scan.Store.Requests.{
  IsAllowed, enqueue, read_space, send, no_messages, answer_all, AreAllowed,
}
use jvmheap_scan.Store.Refinement.{queue-Represents, read-Represents}
use jvmheap_scan.Store.Represents.{Represents}
use jvmheap_scan.Store.{get_msg_group_holder, on_initialize, on_queue_message, on_retrieve_message}
use jvmheap_scan.Sync.{Side, space_id}
use jvmheap_scan.Sync.System.{storing, consuming, Reach, begin, then_step, produce, consume}
use jvmheap_scan.Sync.Exclusion.{consumer_alone}
use jvmheap_scan.Store.Initial.{on_initialize-Represents}
use jvmheap_scan.Sync.Entry.{location}
use jvmheap_scan.Interfaces.World.{
  World, create, produce, put, start_group, include, close, consume, read, Becomes, begin,
  then_deed,
}
use jvmheap_scan.Interfaces.Deeds.{queues_of, Answers, Becomes-Answers}
use jvmheap_scan.Store.Frame.{same_result}
use jvmheap_scan.Store.Grouped.{AreSized}

-- The threads are those of the interleavings without a store.
Becomes-Reach : {t : Store} {z : World} → Becomes t z → Reach z.system
Becomes-Reach begin = begin
Becomes-Reach (then_deed b (create i m a h run)) = Becomes-Reach b
Becomes-Reach (then_deed b (produce i h mv)) = then_step (Becomes-Reach b) (produce i mv)
Becomes-Reach (then_deed b (put i at h run)) = Becomes-Reach b
Becomes-Reach (then_deed b (start_group i h run)) = Becomes-Reach b
Becomes-Reach (then_deed b (include i m f h run)) = Becomes-Reach b
Becomes-Reach (then_deed b (close i sep at h g run)) = Becomes-Reach b
Becomes-Reach (then_deed b (consume st)) = then_step (Becomes-Reach b) (consume st)
Becomes-Reach (then_deed b (read sep at run)) = Becomes-Reach b

-- The static variables are zeros, and memory has an address, before `onInitialize` sets the limit.
pub record IsUnset (s : Store) : Type 0 where
  pub some_address : null < s.fresh
  pub unset : s.is_to_be_split ≡ false
  pub zero : s.split_sz ≡ 0

initialized-Represents :
    (limit : ℕ) (s t : Store)
    → IsUnset s
    → on_initialize limit s ≡ ok tt t
    → Represents limit t no_messages
initialized-Represents limit s t u run =
    let (first, start) = on_initialize-Represents limit s u.some_address u.unset u.zero in
    same_result (λ _ t. Represents limit t no_messages) first run start

served :
    (limit : ℕ) (s t : Store) (z : World)
    → IsUnset s
    → on_initialize limit s ≡ ok tt t
    → Becomes t z
    → AreAllowed limit z.asked no_messages
    → AreSized z.included
    → Answers limit z
served limit s t z u run b allowed sized =
    Becomes-Answers limit t z (initialized-Represents limit s t u run) b
      (record { allowed = allowed; sized = sized })

-- In every interleaving of the producers, the consumer and a thread that collects groups, from a store
-- that has been initialized with any limit or with none, in which each message that is stored has a
-- size that covers its text and comes to a queue with room, and each message that is put into a group
-- a size that covers its text: the store has given to its reads the answers that four queues give to
-- what has been asked for so far, in the order in which it was, and its holders contain the queues
-- that are left. A message that has been taken from a group is one message, the texts of the group
-- with the separator between them, whatever was done in between.
pub Becomes-answer_all :
    (limit : ℕ) (s t : Store) (z : World)
    → IsUnset s
    → on_initialize limit s ≡ ok tt t
    → Becomes t z
    → AreAllowed limit z.asked no_messages
    → AreSized z.included
    → (z.answers ≡ (answer_all limit z.asked no_messages).0)
      × Represents limit z.store (answer_all limit z.asked no_messages).1
Becomes-answer_all limit s t z u run b allowed sized =
    let k = served limit s t z u run b allowed sized in (k.answered, k.carries.rep)

-- In every such interleaving, when a producer with a node in hand owns an entry, and its message has a
-- size that covers its text and its queue has room, the call of onQueueMessage returns and leaves the
-- queues with the message behind those of the entry's, and the consumer is not reading that space.
pub on_queue_message-Becomes :
    (limit : ℕ) (s t : Store) (z : World) (i : ℕ) (d e : Side) (p : Ptr) (m : Item)
    → IsUnset s
    → on_initialize limit s ≡ ok tt t
    → Becomes t z
    → AreAllowed limit z.asked no_messages
    → AreSized z.included
    → IsAllowed limit (send (location d e) m) (queues_of limit z)
    → z.system.pc i ≡ storing d e
    → z.hand i ≡ some (p, m)
    → (v : Store) × (on_queue_message (location d e) p z.store ≡ ok tt v)
      × Represents limit v (enqueue (queues_of limit z) (get_msg_group_holder (location d e)) m)
      × (z.system.consumer_pc ≢ consuming d)
on_queue_message-Becomes limit s t z i d e p m u run b allowed sized room at here =
    let k = served limit s t z u run b allowed sized in
    let w = k.carries.waits i p m here in
    let (v, stored, (r, _)) =
      queue-Represents limit z.store (queues_of limit z) k.carries.rep (location d e) m p room
        w.placed w.ne_null w.old w.free in
    (v, stored, r, (λ c. consumer_alone d e i (Becomes-Reach b) c at))

-- In every such interleaving, when the consumer has been given a space, the call of onRetrieveMessage
-- for it returns with what the queues give for a read of that space, and leaves them as that read does,
-- and no producer is storing a message in that space.
pub on_retrieve_message-Becomes :
    (limit : ℕ) (s t : Store) (z : World) (d : Side) (sep : List ℕ)
    → IsUnset s
    → on_initialize limit s ≡ ok tt t
    → Becomes t z
    → AreAllowed limit z.asked no_messages
    → AreSized z.included
    → z.system.consumer_pc ≡ consuming d
    → (v : Store) × (on_retrieve_message sep (space_id d) z.store
        ≡ ok (read_space limit sep (space_id d % 2 == 1) (queues_of limit z)).0 v)
      × Represents limit v (read_space limit sep (space_id d % 2 == 1) (queues_of limit z)).1
      × ((i : ℕ) (e : Side) → z.system.pc i ≢ storing d e)
on_retrieve_message-Becomes limit s t z d sep u run b allowed sized at =
    let k = served limit s t z u run b allowed sized in
    let (v, got, r) =
      read-Represents limit z.store (queues_of limit z) k.carries.rep sep (space_id d) in
    (v, got, r, (λ i e. consumer_alone d e i (Becomes-Reach b) at))
