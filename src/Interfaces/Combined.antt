-- ===== src/Interfaces/Combined.antt =====
-- The files put together by their tables: a thread of the program that sends a message through
-- Agent/src/c/MessageStore.c and Agent/src/c/ThreadSync_PriorityProducer.c, and the thread of
-- Agent/src/c/SocketOutputInterface.c with the synchronizer behind its calls.
use jvmheap_scan.Base.{ℕ, none, some, List, if◌then◌else◌}
use jvmheap_scan.Store.Memory.{Store}
use jvmheap_scan.Store.{create_msg_node}
use jvmheap_scan.Sync.{Side, space_id, Shared}
use jvmheap_scan.Sync.Handlers.{Handler, try_consumer_entry, on_start_consume, ◌>>=◌}
use jvmheap_scan.Socket.{Peer}
use jvmheap_scan.Interfaces.{data_store, in_store, get_synchronizer_interface}

-- `onFlushMsg` by thread `i`, through the synchronizer's table.
unfoldable pub flush_by_thread : ℕ → Side → List ℕ → ℕ → Handler Store (Unit {0})
unfolding create_msg_node
flush_by_thread i consuming msg size = do
  p ← in_store (create_msg_node msg size)
  (get_synchronizer_interface i consuming data_store).on_produce p

-- The calls of the socket's thread with the synchronizer behind them; `wait_timeout` is what a wait
-- gives that ends by its time.
module _ (wait_timeout : ℕ) (p : Peer) where
  unfoldable pub wait_for_entry : Shared × p.World → ℕ × (Shared × p.World)
  unfolding try_consumer_entry
  wait_for_entry (m, w) =
      let (entered, n) = try_consumer_entry m in
      ((if entered then p.wait_object_0 else wait_timeout), (n, w))

  abbrev pub over_synchronizer : Peer
  over_synchronizer = record {
    World = Shared × p.World;
    socket_error = p.socket_error;
    wait_object_0 = p.wait_object_0;
    pending_input = λ w. p.pending_input w.1;
    recv = λ n w. ((p.recv n w.1).0, (w.0, (p.recv n w.1).1));
    send = λ m w. ((p.send m w.1).0, (w.0, (p.send m w.1).1));
    close_client = λ w. ((p.close_client w.1).0, (w.0, (p.close_client w.1).1));
    close_listener = λ w. ((p.close_listener w.1).0, (w.0, (p.close_listener w.1).1));
    listen = λ w. ((p.listen w.1).0, (w.0, (p.listen w.1).1));
    accept = λ w. (w.0, p.accept w.1);
    set_non_blocking = λ w. ((p.set_non_blocking w.1).0, (w.0, (p.set_non_blocking w.1).1));
    follow_reference = λ w. (w.0, p.follow_reference w.1);
    start_gc = λ w. (w.0, p.start_gc w.1);
    on_get_class_metadata = λ w. (w.0, p.on_get_class_metadata w.1);
    on_try_consumer_entry = λ n w. wait_for_entry w;
    on_start_consume = λ w. elim (on_start_consume data_store.accumulate w) [
      | none ↦ none
      | some (s, v) ↦ some (space_id s, v)
    ];
    retrieve_msg =
        λ id w. elim (p.retrieve_msg id w.1) [ none ↦ none | some (r, v) ↦ some (r, (w.0, v)) ];
  }
