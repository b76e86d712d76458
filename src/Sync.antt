-- ===== src/Sync.antt =====
-- Agent/src/c/ThreadSync_PriorityProducer.c: the shared state of producers and consumer.
pub mod Entry
pub mod Examples
pub mod Exclusion
pub mod Gates
pub mod Handlers
pub mod Hang
pub mod Progress
pub mod Stuck
pub mod Threads
pub mod System
pub mod Turns
pub mod Undone
use jvmheap_scan.Base.{ℕ, ◌+◌, Bool, true, false, Option, none}

-- The two producer spaces, and the two entries of each.
pub data Side : Type 0 where
  left right : Side

-- `MSG_LOCATION_ID`
abbrev pub space_id : Side → ℕ
space_id left = 0
space_id right = 1

abbrev pub entry_id : Side → ℕ
entry_id left = 2
entry_id right = 4

abbrev pub opposite : Side → Side
opposite left = right
opposite right = left

-- Who owns the mutex of an entry: a producer, or the consumer, so many times over and once.
pub data Owner : Type 0 where
  free : Owner
  producer : ℕ → Owner
  consumer : ℕ → Owner

-- `struct ProducerSpace`. A copy of the structure shares all but `isReady`, since the other fields
-- are handles and a pointer to the counter.
pub record Space : Type 0 where
  pub gate : Bool
  pub accumulate_gate : Bool
  pub is_ready : Bool
  pub threads : ℕ
  pub left_lock : Owner
  pub right_lock : Owner

-- The static variables: both spaces, the current one, and the gates.
pub record Shared : Type 0 where
  pub left_space : Space
  pub right_space : Space
  pub current : Side
  pub consumer_gate : Bool
  pub consumer_in : Bool
  pub main_producer_gate : Owner

abbrev pub space_of : Side → Shared → Space
space_of s m = elim s [ left ↦ m.left_space | right ↦ m.right_space ]

abbrev pub with_space : Side → Space → Shared → Shared
with_space s sp m = record m {
  left_space = elim s [ left ↦ sp | right ↦ m.left_space ];
  right_space = elim s [ left ↦ m.right_space | right ↦ sp ];
}

abbrev pub lock_of : Side → Side → Shared → Owner
lock_of s e m = let sp = space_of s m in elim e [ left ↦ sp.left_lock | right ↦ sp.right_lock ]

abbrev pub with_lock : Side → Side → Owner → Shared → Shared
with_lock s e o m =
    let sp = space_of s m in
    with_space s
      (record sp {
        left_lock = elim e [ left ↦ o | right ↦ sp.left_lock ];
        right_lock = elim e [ left ↦ sp.right_lock | right ↦ o ];
      })
      m

-- A mutex, which belongs to the thread that creates it where the state says so.
abbrev pub create_mutex : Owner → Bool → Owner
create_mutex creator true = creator
create_mutex creator false = free

-- Whether an event is set. Its kind says whether a wait resets it, and stands with the waits.
abbrev pub create_event : Bool → Bool → Bool
create_event manual_reset initial_state = initial_state

-- The lock of `createEntry`, made by the thread that loads the agent.
abbrev pub create_entry : Owner
create_entry = create_mutex (consumer 0) false

-- `createNewSpace`
abbrev pub create_new_space : Space
create_new_space = record {
  gate = create_event true true;
  accumulate_gate = create_event false false;
  is_ready = false;
  threads = 0;
  left_lock = create_entry;
  right_lock = create_entry;
}

-- `onInitialize`
abbrev pub on_initialize : Shared
on_initialize = record {
  left_space = create_new_space;
  right_space = create_new_space;
  current = left;
  consumer_gate = create_event true false;
  consumer_in = false;
  main_producer_gate = create_mutex (consumer 0) false;
}
