-- ===== src/Lib.antt =====
-- JVMHeapScan: a JVM agent in C that tags the objects of the heap and sends what it sees to a
-- client on a socket.
--
-- The parts and how they interact. The agent (Agent/src/c/JVMHeapScan.c) is called by the virtual
-- machine and by the instrumented constructor of `java.lang.Object`; it gives tags to classes and
-- objects and prints a message for each. Every message goes to the message store
-- (Agent/src/c/MessageStore.c), at once or in a group that is printed as one message. The store
-- wraps it in a node and hands that to the synchronizer
-- (Agent/src/c/ThreadSync_PriorityProducer.c), which finds a space and an entry that no one else
-- holds and calls the store back to queue the node there. The socket thread
-- (Agent/src/c/SocketOutputInterface.c) waits for the synchronizer to hand it a space, and
-- retrieves the space's messages from the store as texts.
--
-- Files and what they model. Definitions have the names of the C functions in snake case.
--   Base, Base/Lists, Base/Int: shared names, lists over the native numbers, integers.
--   Agent/Chars: `getChars`, and what `%d` and `%ld` print.
--   Agent/Message: the messages, each with its text and the size of the buffer that it is printed
--     into; Agent/Message/Size and Agent/Message/Decode have the proofs.
--   Agent/Tags: the operations on tags. The JVM Tool Interface is the parameter `Jvmti`; its
--     documented behaviour is the record `Laws` in Agent/Tags/Laws. `Act` passes `lastTag`, the
--     virtual machine and the calls of the message store. `onFatalError` ends the process, so that
--     an `Outcome` may be no result. Agent/Tags/Bounded is about the tags that are printed.
--   Agent/Tags/Callback: `followReferenceCallback`. The two tag cells may be one.
--   Agent/Tags/Heap: `onFollowReference`, `onStartGC` and `referenceFollowerInit`. The functions
--     that walk and collect the heap are the parameter `Walker`; the record `Walks` says that a
--     walk calls the callback once for each reference. Agent/Tags/Visits is about the buffers that
--     its messages are printed into.
--   Agent/Tags/Race: `setAndGetTag` as steps of several threads.
--   Agent/Options: `onSetOptions` and the properties file, with the `fscanf` of Agent/Options/Scan
--     for the directives that the formats hold, and the sizes of the arrays.
--   Agent/ErrorTexts: the texts of fatal errors and the buffers that they are printed into.
--   Agent/Machine, Agent/Setup: `Agent_OnLoad` with what the files' `onInitialize` do, and the
--     callbacks of the virtual machine, as commands over the list of calls made. `Machine` has the
--     code that each call returns, that of `GetErrorName` and the instrumentation. Agent/Setup/Seen reads off the
--     calls what has been asked for; Agent/Setup/Checked, Agent/Setup/Errors, Agent/Setup/Ready and
--     Agent/Setup/Hooks have the proofs.
--   Store/Memory, Store: the message store. A pointer is a number, `malloc` never gives one out
--     twice, a load through a pointer that leads nowhere is a fault, and so is a write past a
--     buffer. `onProduce` is a parameter of `onFlushMsg`, as it is a function pointer in C.
--   Store/Seg, Store/Rules, Store/Merge, Store/Group, Store/Collect, Store/Queue, Store/Split,
--     Store/Space, Store/Hand, Store/Final, Store/Retrieve, Store/Part, Store/Loss, Store/Fuel:
--     chains of nodes, and the proofs on each function.
--   Store/Contents, Store/Queued, Store/Sides, Store/Replaced, Store/Reads: what the four holders
--     contain, and how a message and a retrieval change it.
--   Store/Requests: sequences of requests, and four abstract queues that say how to answer them;
--     Store/Items, Store/Represents, Store/Refinement, Store/Answers and Store/Initial have the
--     proof that the store does. Store/Untouched, Store/Collected and Store/Grouped are about a
--     group that is collected and sent as one message, Store/Frame about the calls that do not
--     touch it.
--   Sync: the spaces, entries and gates; Sync/System: producers and consumer as a step relation,
--     one access of shared state at a step, so that `Reach` has all interleavings of any number of
--     producers. Sync/Exclusion, Sync/Gates, Sync/Entry, Sync/Threads, Sync/Undone, Sync/Stuck and
--     Sync/Progress have the proofs.
--   Sync/Handlers: the same functions as one thread runs them from start to end, alone; Sync/Turns
--     is about a turn of the consumer, Sync/Hang about the third turn.
--   Interfaces: the tables of functions of Agent/src/header, over whatever a call may change, and
--     the functions that fill them. Interfaces/Laws has the store behind the synchronizer,
--     Interfaces/Combined all parts put together, and Interfaces/Idle and Interfaces/Delivery the
--     way of a message through them while no other thread takes a step. Interfaces/Handover,
--     Interfaces/Report and Interfaces/HeapReport have the agent's calls served by the store.
--   Interfaces/World: the interleavings of Sync/System with the store that the threads call, one
--     call of the store at a step: a producer makes a node and carries it to the entry that it
--     gets, the consumer reads the space that it has been given, and one thread at a time collects
--     a group. Interfaces/Carried, Interfaces/Handed, Interfaces/Collecting and Interfaces/Deeds
--     say what each step does to the nodes under way; Interfaces/Concurrent and
--     Interfaces/Sending have the theorems.
--   Socket: the thread that serves the client, up to its endless outer loop, of which `flush_round`
--     is one round. Winsock and the interfaces that the thread calls are the parameter `Peer`;
--     Socket/Drain puts the message store behind `retrieve_msg`, and Socket/Packets and
--     Socket/Batches have the loop over the queues that the store holds. Socket/Round is about a
--     round that comes to the messages, Socket/Kill about the end of the thread.
-- Files named Tests, Runs and Examples hold runs at concrete inputs, and each theorem at one.
--
-- Bounds and fuel. The loops of `getChars` and of printing run on fuel that is the number itself,
-- which dividing by ten never uses up. The loop of `mergeMsgAsString` gets one round for each
-- message counted in the group and one more. The loop of `onGetMsgSplit` gets three rounds: its
-- second merge frees the group that the third round would start from. `long` has 32 bits, as on
-- Windows, and `sizeof("\0")` is 2. The counters of groups and `lastTag` are unbounded numbers:
-- that they stay below 2 ^ 31 is assumed. `accumulateMessage` in Sync/Handlers has two rounds: the
-- first wait resets the event that it waits for. `onProduce` in Sync/Handlers has no result where a
-- thread alone would wait for ever. The arrays of `onSetOptions` have 260, 260 and 6 bytes and its
-- limit is an `int` of 32 bits: what does not fit them is undefined behaviour. The inner loop of `startFlushProcess` runs on fuel, one
-- unit for each text that is retrieved.
--
-- Not modelled. Agent/src/c/java_crw_demo.c is the class file rewriter of the JDK's demo agents:
-- what it returns is a parameter. Where `onFatalError` is called the models end without its text,
-- which stands in Agent/ErrorTexts. Left out are `setSizes`, which only sets sizes, and the entries
-- `initialize` of the tables, whose work stands in Agent/Setup, and `port` of the table of the
-- virtual machine's functions, which nothing reads. `accumulateMessage`, which the store never
-- turns on, has no steps in Sync/System. In Sync/System, Sync/Handlers and Interfaces/World the
-- producers are threads other than the consumer's. The socket thread, which is the consumer, sends
-- messages too while it follows references for its client: a Windows mutex lets its owner in again,
-- so that it gets the entries that it has kept, and no step here is that. Allocation is taken
-- to succeed.
pub mod Base
pub mod Agent
pub mod Store
pub mod Socket
pub mod Interfaces
pub mod Sync
