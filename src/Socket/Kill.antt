-- ===== src/Socket/Kill.antt =====
-- The end of the thread of Agent/src/c/SocketOutputInterface.c.
use jvmheap_scan.Base.{ℕ, ◌≡◌, refl, true, false, [], ◌∷◌, arith, if◌then◌else◌}
use jvmheap_scan.Agent.Chars.{get_chars, decimal}
use jvmheap_scan.Agent.Tags.{is_zero}
use jvmheap_scan.Base.Int.{ℤ}
use jvmheap_scan.Socket.{
  Status, idle, listening, waiting, normal, accumulating, none_failed, listen_socket_cleanup,
  client_socket_cleanup, leave_client, Peer, Output, running, exited, same_status, on_clean_socket,
  on_change_status, on_thread_exit, on_kill_thread, on_start, on_handle_socket_error,
  process_incoming_message, flush_round,
}

module _ (p : Peer) where
  abbrev pub killed : Output p → Output p
  killed s = (on_kill_thread p s).1

  on_change_status-killed :
      (status : Status) (s : Output p)
      → s.status_lock ≡ false
      → s.die ≡ true
      → on_change_status p status s ≡ on_thread_exit p s
  unfolding on_change_status
  on_change_status-killed status s locked dying = rw (locked, dying)

  abbrev close_last : p.World → ℕ × p.World
  close_last w =
      let (err, u) = p.close_listener w in
      ((if same_status err p.socket_error then listen_socket_cleanup else none_failed), u)

  -- The exit code and the world, once the sockets that a thread with this status has are closed: none
  -- before it listens, the listening one until a client is connected, else the client's, which is sent
  -- the code 5 with its NUL before, and then the listening one, if the client's could be closed.
  abbrev pub closed_at : Status → p.World → ℕ × p.World
  closed_at idle w = (none_failed, w)
  closed_at listening w = close_last w
  closed_at _ w =
      let (err, v) = p.close_client (p.send (b'5' ∷ [], 2) w).1 in
      if same_status err p.socket_error then (client_socket_cleanup, v) else close_last v

  on_clean_socket-closed_at :
      (status : Status) (w : p.World) → on_clean_socket p status w ≡ closed_at status w
  unfolding on_clean_socket leave_client get_chars decimal
  on_clean_socket-closed_at idle w = refl
  on_clean_socket-closed_at listening w = refl
  on_clean_socket-closed_at waiting w = ground arith
  on_clean_socket-closed_at normal w = ground arith
  on_clean_socket-closed_at accumulating w = ground arith

  -- After `onKillThread`, and if the message that waits is read without an error, the round that begins
  -- ends the thread at its first change of status, with the sockets that its status stands for closed:
  -- none for an idle thread, the listening one for a listening thread, and for a connected one the
  -- client's, which is sent the code 5 before, and then the listening one, unless closing the client's
  -- has failed; the exit code says which could not be closed.
  pub flush_round-killed :
      (k : ℕ) (s : Output p) (received : ℤ) (w : p.World)
      → process_incoming_message p (killed s) ≡ running received (record (killed s) { world = w })
      → same_status received p.socket_error ≡ false
      → flush_round p k (killed s)
        ≡ exited
            (closed_at s.thread_status w).0
            (record (killed s) { world = (closed_at s.thread_status w).1 })
  unfolding flush_round on_kill_thread on_thread_exit on_change_status
  flush_round-killed k s received w got fine =
      rw (got, fine, on_clean_socket-closed_at s.thread_status w)

  -- `onKillThread` has queued nothing for the thread. If the message that waits cannot be read then,
  -- the thread starts again, and where Winsock reports no further error it forgets that it is to end:
  -- its status is normal and every change of status succeeds, although `die` is set.
  pub flush_round-kill_lost :
      (k : ℕ) (s : Output p) (received : ℤ) (w : p.World)
      → (on_kill_thread p s).0 ≡ false
      → process_incoming_message p (killed s) ≡ running received (record (killed s) { world = w })
      → same_status received p.socket_error ≡ true
      → let listened = p.listen (p.close_client w).1 in
        is_zero listened.0 ≡ true
        → is_zero (p.set_non_blocking (p.accept listened.1)).0 ≡ true
        → (t : Output p) × (flush_round p k (killed s) ≡ running true t)
          × (t.thread_status ≡ normal)
          × (t.die ≡ true)
          × ((status : Status)
              → on_change_status p status t ≡ running tt (record t { thread_status = status }))
  unfolding flush_round on_handle_socket_error on_start on_kill_thread on_change_status
  flush_round-kill_lost k s received w none_queued got bad heard open_mode = (
    record (killed s) {
      thread_status = normal;
      status_lock = true;
      world = (p.set_non_blocking (p.accept (p.listen (p.close_client w).1).1)).1;
    },
    rw (got, bad, heard, open_mode),
    refl,
    refl,
    λ status. refl,
  )
