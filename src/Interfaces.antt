-- ===== src/Interfaces.antt =====
-- The tables of functions by which the files call each other: Agent/src/header/JVMHeapScan.h and
-- Agent/src/header/ThreadSync_PriorityProducer.h, and the functions that fill them. `M` is what a call of
-- the table's functions may change. The `initialize` entries are not in the tables here: they only
-- copy the tables into static variables, and what else they do stands in Agent/Setup.
pub mod Examples
pub mod Laws
pub mod Combined
pub mod Delivery
pub mod Idle
pub mod Report
pub mod Sending
pub mod HeapReport
pub mod Handover
pub mod World
pub mod Concurrent
pub mod Collecting
pub mod Handed
pub mod Runs
pub mod Deeds
pub mod Carried
use jvmheap_scan.Base.{ℕ, ◌+◌, Bool, true, false, Option, none, some, List}
use jvmheap_scan.Store.Memory.{Ptr, Store, Run, Cmd, ok, fault, out_of_fuel}
use jvmheap_scan.Store.{
  Retrieved, on_start_msg_grp, on_flush_msg, on_flush_msg_grp, on_include_message, on_queue_message,
  on_retrieve_message,
}
use jvmheap_scan.Sync.{Side, space_id, Shared}
use jvmheap_scan.Sync.Handlers.{
  Handler, on_produce, on_try_consumer_entry, on_start_consume, on_end_consume,
}
use jvmheap_scan.Sync.Handlers
use jvmheap_scan.Base.Int.{ℤ}
use jvmheap_scan.Agent.Options.{AgentOptions}
use jvmheap_scan.Agent.Tags.{Jvmti, Agent, Act, fatal, on_get_class_metadata}
use jvmheap_scan.Agent.Tags.Heap.{Walker, Callback, on_follow_reference, on_start_gc}
use jvmheap_scan.Socket.{Peer, Output, message_separator, on_kill_thread}
use jvmheap_scan.Socket

module _ (M : Type 0 → Type 0) where
  -- The types of the functions.
  abbrev pub StoreMsg : Type 0
  StoreMsg = ℕ → Ptr → M (Unit {0})

  abbrev pub FlushMsg : Type 0
  FlushMsg = List ℕ → ℕ → M (Unit {0})

  abbrev pub IncludeMessage : Type 0
  IncludeMessage = List ℕ → ℕ → Bool → M (Unit {0})

  abbrev pub StartMsgGrp : Type 0
  StartMsgGrp = M (Unit {0})

  abbrev pub FlushMsgGrp : Type 0
  FlushMsgGrp = M (Unit {0})

  -- With what is written through the pointers.
  abbrev pub RetrieveMsg : Type 0
  RetrieveMsg = ℕ → M Retrieved

  abbrev pub SendMsg : Type 0
  SendMsg = List ℕ × ℕ → M ℤ

  abbrev pub StartProcess : Type 0
  StartProcess = M (Unit {0})

  abbrev pub OnKillThread : Type 0
  OnKillThread = M (Unit {0})

  abbrev pub FollowReference : Type 0
  FollowReference = M (Unit {0})

  abbrev pub StartGc : Type 0
  StartGc = M (Unit {0})

  abbrev pub OnFatalError : Type 0
  OnFatalError = M (Unit {0})

  abbrev pub OnGetClassMetadata : Type 0
  OnGetClassMetadata = M (Unit {0})

  -- `struct MsgStoreIntf`
  pub record MsgStoreIntf : Type 0 where
    pub accumulate : Bool
    pub accumulate_threshold_millis : ℕ
    pub accumulate_sleep_millis : ℕ
    pub store_msg : StoreMsg

  pub record SynchronizerInterface : Type 0 where
    pub on_produce : Ptr → M (Unit {0})
    pub on_try_consumer_entry : M Bool
    pub on_start_consume : M ℕ
    pub on_end_consume : M (Unit {0})

  pub record MessageStore : Type 0 where
    pub flush_message : FlushMsg
    pub start_msg_grp : StartMsgGrp
    pub include_message : IncludeMessage
    pub flush_msg_grp : FlushMsgGrp
    pub retrieve_msg : RetrieveMsg

  pub record OutputInterface : Type 0 where
    pub start : StartProcess
    pub get_msg_separator : List ℕ
    pub send_msg : SendMsg
    pub on_kill_thread : OnKillThread

  pub record JvmFunctions : Type 0 where
    pub follow_reference : FollowReference
    pub start_gc : StartGc
    pub on_fatal_error : OnFatalError
    pub on_get_class_metadata : OnGetClassMetadata

  pub record JvmHeapScanInterfaces : Type 0 where
    pub agent_options : AgentOptions
    pub msg_store : MessageStore
    pub op_interface : OutputInterface
    pub jvm_functions : JvmFunctions
    pub sync_interface : SynchronizerInterface

-- `dataStore` of `onInitialize` in Agent/src/c/MessageStore.c
abbrev pub data_store : MsgStoreIntf Cmd
data_store = record {
  accumulate = false;
  accumulate_threshold_millis = 0;
  accumulate_sleep_millis = 0;
  store_msg = on_queue_message;
}

abbrev pub get_msg_store_interface : (Ptr → Cmd (Unit {0})) → List ℕ → MessageStore Cmd
get_msg_store_interface produce separator = record {
  start_msg_grp = on_start_msg_grp;
  flush_message = on_flush_msg produce;
  flush_msg_grp = on_flush_msg_grp produce separator;
  include_message = on_include_message produce;
  retrieve_msg = on_retrieve_message separator;
}

-- A command of the message store under the synchronizer.
abbrev pub in_store : {A : Type 0} → Cmd A → Handler Store A
in_store c (m, s) = elim (c s) [ ok a t ↦ some (a, (m, t)) | fault ↦ none | out_of_fuel ↦ none ]

-- The table for thread `i`; `consuming` is the space that `onStartConsume` has returned last.
abbrev pub get_synchronizer_interface :
    ℕ → Side → MsgStoreIntf Cmd → SynchronizerInterface (Handler Store)
get_synchronizer_interface i consuming intf = record {
  on_produce = on_produce i (λ id p. in_store (intf.store_msg id p));
  on_try_consumer_entry = on_try_consumer_entry;
  on_start_consume =
      λ w. Handlers.and_then (on_start_consume intf.accumulate w) (λ s. Handlers.pure (space_id s));
  on_end_consume = on_end_consume consuming;
}

abbrev pub on_send_message : (p : Peer) → List ℕ × ℕ → Socket.Act p ℤ
on_send_message p m = Socket.call p (p.send m)

abbrev pub on_get_msg_separator : List ℕ
on_get_msg_separator = message_separator

-- `start` is `onStart` up to its call of `startFlushProcess`.
abbrev pub get_output_interface : (p : Peer) → OutputInterface (Socket.Act p)
get_output_interface p = record {
  start = Socket.on_start p;
  get_msg_separator = on_get_msg_separator;
  send_msg = on_send_message p;
  on_kill_thread = λ s. Socket.running tt (on_kill_thread p s).1;
}

-- `Agent_OnUnload`
abbrev pub agent_on_unload : (p : Peer) → Socket.Act p (Unit {0})
agent_on_unload p = (get_output_interface p).on_kill_thread

abbrev pub get_jvm_interface : (j : Jvmti) → Walker j → Option Callback → JvmFunctions (Act j)
get_jvm_interface j walker callbacks = record {
  follow_reference = on_follow_reference j walker callbacks;
  start_gc = on_start_gc j walker;
  on_fatal_error = λ _. fatal;
  on_get_class_metadata = on_get_class_metadata j;
}
