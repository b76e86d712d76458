-- ===== src/Interfaces/Runs.antt =====
-- A run of Interfaces/World: while one thread collects a group, another stores a message, and the consumer
-- reads it before the group is stored.
use jvmheap_scan.Base.{◌≢◌, inl, ◌%◌, ◌==◌, inr, false, ℕ, ◌≡◌, refl, some, [], ◌∷◌, arith}
use jvmheap_scan.Store.Memory.{Ptr, Store, Cmd, pure, ok, load_node}
use jvmheap_scan.Store.Tests.{blank, item}
use jvmheap_scan.Store.Initial.{started, on_initialize-Represents}
use jvmheap_scan.Store.{
  create_msg_node, on_start_msg_grp, initialize_msg_grp, on_include_message, on_queue_message,
  on_retrieve_message, get_msg_group_holder, get_msg_group_holder_in_space, on_get_msg_split,
  split_loop, merge_grp, hand_out, merge_msg_as_string, on_initialize,
}
use jvmheap_scan.Sync.{Side, left, right, free, space_id}
use jvmheap_scan.Sync.System.{
  enter, find_open, announce_in, set_accumulate, increment, acquire, release, decrement, wake, note,
  reset, start, open_other, close_local, clear, drained, lock_left, lock_right,
}
use jvmheap_scan.Interfaces.Concurrent.{
  IsUnset, Becomes-answer_all, on_queue_message-Becomes, on_retrieve_message-Becomes,
}
use jvmheap_scan.Store.Requests.{
  answer, answer_all, no_messages, AreAllowed, IsAllowed, enqueue, read_space, join_texts, send,
}
use jvmheap_scan.Store.Grouped.{joined, AreSized}
use jvmheap_scan.Store.Seg.{Item}
use jvmheap_scan.Sync.Progress.{HasRoom}
use jvmheap_scan.Interfaces.Sending.{Sends, producer-Sends}
use jvmheap_scan.Store.Represents.{Represents}
use jvmheap_scan.Sync.System.{idle, storing, consuming}
use jvmheap_scan.Sync.Entry.{location}
use jvmheap_scan.Interfaces.World.{
  World, close_group, create, produce, put, start_group, include, close, consume, read, Becomes,
  begin, then_deed,
}

abbrev ready : Store
ready = started 2 blank (omega arith)

record Ran : Type 0 where
  after : World
  run : Becomes ready after

abbrev pass : Ptr → Cmd (Unit {0})
pass p = pure tt

-- The first collects a group; the second has a node, and owns the left entry of the left space.
storing_second : Ran
unfolding create_msg_node on_start_msg_grp initialize_msg_grp on_include_message load_node
storing_second = record {
  after = _;
  run =
      then_deed
        (then_deed
          (then_deed
            (then_deed
              (then_deed
                (then_deed
                  (then_deed
                    (then_deed (then_deed begin (start_group 3 refl refl))
                      (include 3 (item 65) pass refl refl))
                    (create 4 (item 66) refl refl refl))
                  (produce 4 refl enter))
                (produce 4 refl (find_open refl)))
              (produce 4 refl (announce_in refl)))
            (produce 4 refl set_accumulate))
          (produce 4 refl increment))
        (produce 4 refl (acquire refl));
}

-- It stores its message, and goes; the first closes its group.
stored_second : Ran
unfolding on_queue_message storing_second close_group on_include_message merge_msg_as_string
    load_node
stored_second = record {
  after = _;
  run =
      then_deed
        (then_deed
          (then_deed
            (then_deed (then_deed storing_second.run (put 4 refl refl refl))
              (include 3 (item 67) pass refl refl))
            (produce 4 refl release))
          (produce 4 refl decrement))
        (close 3 (10 ∷ []) refl refl refl refl);
}

-- The consumer comes, gets the left space and reads it.
read_second : Ran
unfolding on_retrieve_message stored_second get_msg_group_holder_in_space on_get_msg_split
    split_loop merge_grp hand_out merge_msg_as_string
read_second = record {
  after = _;
  run =
      then_deed
        (then_deed
          (then_deed
            (then_deed
              (then_deed
                (then_deed
                  (then_deed
                    (then_deed
                      (then_deed
                        (then_deed (then_deed stored_second.run (consume (wake refl)))
                          (consume note))
                        (consume reset))
                      (consume start))
                    (consume open_other))
                  (consume close_local))
                (consume clear))
              (consume (drained refl)))
            (consume (lock_left refl)))
          (consume (lock_right refl)))
        (read (10 ∷ []) refl refl);
}

blank-IsUnset : IsUnset blank
blank-IsUnset = record { some_address = omega arith; unset = refl; zero = refl }

ready_run : on_initialize 2 blank ≡ ok tt ready
ready_run = (on_initialize-Represents 2 blank (omega arith) refl refl).0

read_second-AreAllowed : AreAllowed 2 read_second.after.asked no_messages
unfolding read_second answer get_msg_group_holder
read_second-AreAllowed = ((inr (omega arith), omega arith), (tt, tt))

read_second-AreSized : AreSized read_second.after.included
unfolding read_second
read_second-AreSized = (omega arith, (omega arith, tt))

Becomes-answer_all_example :
    (read_second.after.answers ≡ (answer_all 2 read_second.after.asked no_messages).0)
    × Represents 2 read_second.after.store (answer_all 2 read_second.after.asked no_messages).1
Becomes-answer_all_example =
    Becomes-answer_all 2 blank ready read_second.after blank-IsUnset ready_run read_second.run
      read_second-AreAllowed read_second-AreSized

-- What the consumer has got: the message of the second producer.
delivers :
    read_second.after.answers
    ≡ record { pending = false; total_msg = 1; text = some (66 ∷ [], 2) } ∷ []
unfolding read_second
delivers = refl

storing_second-AreAllowed : AreAllowed 2 storing_second.after.asked no_messages
unfolding storing_second
storing_second-AreAllowed = tt

second-IsAllowed :
    IsAllowed 2
      (send (location left left) (item 66))
      (answer_all 2 storing_second.after.asked no_messages).1
unfolding storing_second answer_all get_msg_group_holder
second-IsAllowed = (inr (omega arith), omega arith)

storing_second-AreSized : AreSized storing_second.after.included
unfolding storing_second
storing_second-AreSized = (omega arith, tt)

owns_left : storing_second.after.system.pc 4 ≡ storing left left
unfolding storing_second
owns_left = refl

has_node : storing_second.after.hand 4 ≡ some (11, item 66)
unfolding storing_second
has_node = refl

on_queue_message-Becomes_example :
    (v : Store) × (on_queue_message (location left left) 11 storing_second.after.store ≡ ok tt v)
    × Represents 2 v (
        enqueue
          (answer_all 2 storing_second.after.asked no_messages).1
          (get_msg_group_holder (location left left))
          (item 66))
    × (storing_second.after.system.consumer_pc ≢ consuming left)
on_queue_message-Becomes_example =
    on_queue_message-Becomes 2 blank ready storing_second.after 4 left left 11 (item 66)
      blank-IsUnset ready_run storing_second.run storing_second-AreAllowed storing_second-AreSized
      second-IsAllowed owns_left has_node

reads_left : read_second.after.system.consumer_pc ≡ consuming left
unfolding read_second
reads_left = refl

-- The consumer may read again.
on_retrieve_message-Becomes_example :
    (v : Store) × (on_retrieve_message (10 ∷ []) (space_id left) read_second.after.store
      ≡ ok
          (read_space 2
            (10 ∷ [])
            (space_id left % 2 == 1)
            (answer_all 2 read_second.after.asked no_messages).1).0
          v)
    × Represents 2 v
        (read_space 2
          (10 ∷ [])
          (space_id left % 2 == 1)
          (answer_all 2 read_second.after.asked no_messages).1).1
    × ((i : ℕ) (e : Side) → read_second.after.system.pc i ≢ storing left e)
on_retrieve_message-Becomes_example =
    on_retrieve_message-Becomes 2 blank ready read_second.after left (10 ∷ []) blank-IsUnset
      ready_run read_second.run read_second-AreAllowed read_second-AreSized reads_left

-- The group is in the first thread's hand, as one message.
has_group : read_second.after.hand 3 ≡ some (13, record { size = 4; text = 65 ∷ 10 ∷ 67 ∷ [] })
unfolding read_second stored_second join_texts
has_group = refl

-- The first thread may send its group: no one is in its way.
group_text : Item
group_text = joined (10 ∷ []) (item 65 ∷ item 67 ∷ [])

stored_second-AreAllowed : AreAllowed 2 stored_second.after.asked no_messages
unfolding stored_second answer get_msg_group_holder
stored_second-AreAllowed = ((inr (omega arith), omega arith), tt)

stored_second-AreSized : AreSized stored_second.after.included
unfolding stored_second
stored_second-AreSized = (omega arith, (omega arith, tt))

group-IsAllowed :
    (d e : Side)
    → IsAllowed 2
        (send (location d e) group_text)
        (answer_all 2 stored_second.after.asked no_messages).1
unfolding stored_second answer_all get_msg_group_holder group_text join_texts
group-IsAllowed left left = (inr (omega arith), omega arith)
group-IsAllowed left right = (inr (omega arith), omega arith)
group-IsAllowed right left = (inr (omega arith), omega arith)
group-IsAllowed right right = (inr (omega arith), omega arith)

no_one_holds : HasRoom stored_second.after.system.mem
unfolding stored_second
no_one_holds left = inl refl
no_one_holds right = inl refl

is_outside :
    (stored_second.after.system.mem.main_producer_gate ≡ free)
    × (stored_second.after.system.pc 3 ≡ idle)
    × (stored_second.after.hand 3 ≡ some (13, group_text))
unfolding stored_second group_text
is_outside = (refl, refl, refl)

producer-Sends_example : (y : World) × Sends 3 group_text stored_second.after y
producer-Sends_example =
    producer-Sends 2 blank ready stored_second.after 3 13 group_text blank-IsUnset ready_run
      stored_second.run stored_second-AreAllowed stored_second-AreSized group-IsAllowed is_outside.0
      no_one_holds is_outside.1 is_outside.2
