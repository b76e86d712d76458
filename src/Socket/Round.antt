-- ===== src/Socket/Round.antt =====
-- A round of `startFlushProcess` of Agent/src/c/SocketOutputInterface.c that comes to the messages.
use jvmheap_scan.Base.{ℕ, ◌*◌, ◌≡◌, refl, true, false, some, arith, ◌==◌, inl, inr, Bool-cases}
use jvmheap_scan.Base.Int.{ℤ}
use jvmheap_scan.Agent.Tags.{is_zero}
use jvmheap_scan.Socket.{
  Peer, Output, and_then, accumulating, consumer_wait_seconds, normal, running, same_status,
  flush_round, drain, process_incoming_message, check_incoming_msg, on_change_status, start_consume,
}

same_number : (n : ℕ) → (n == n) ≡ true
same_number n = ground arith

start_consume-ok :
    (p : Peer) (s : Output p) {id : ℕ} {u : p.World}
    → p.on_start_consume s.world ≡ some (id, u)
    → start_consume p s ≡ running id (record s { world = u })
unfolding start_consume
start_consume-ok p s got = rw (start_consume, got)

start_consume-drain :
    (p : Peer) (s : Output p) (k : ℕ) {id : ℕ} {u : p.World}
    → s.status_lock ≡ true
    → p.on_start_consume s.world ≡ some (id, u)
    → and_then p
        (start_consume p s)
        (λ id t. and_then p (on_change_status p normal t) (λ _. drain p k id))
      ≡ drain p k id (record s { thread_status = normal; world = u })
unfolding on_change_status
start_consume-drain p s k locked got = rw (start_consume-ok p s got, locked)

-- A round in which nothing comes in, of a thread that is not to end and is let in.
module _ (p : Peer) (s : Output p) where
  pub nothing_received :
      {input : ℤ}
      → p.pending_input s.world ≡ (input, 0)
      → same_status input p.socket_error ≡ false
      → process_incoming_message p s ≡ running input s
  unfolding process_incoming_message check_incoming_msg
  nothing_received {input} quiet fine = elim (Bool-cases (is_zero input)) [
    | inl e ↦ rw (quiet, fine, e)
    | inr e ↦ rw (quiet, fine, e)
  ]

  pub flush_round-drain :
      (k : ℕ) {input : ℤ} {id : ℕ} {v u : p.World}
      → process_incoming_message p s ≡ running input s
      → same_status input p.socket_error ≡ false
      → s.status_lock ≡ true
      → p.on_try_consumer_entry (consumer_wait_seconds * 1000) s.world ≡ (p.wait_object_0, v)
      → p.on_start_consume v ≡ some (id, u)
      → flush_round p k s
        ≡ drain p k id (record s { thread_status = normal; status_lock = true; world = u })
  unfolding flush_round on_change_status start_consume
  flush_round-drain k {v} quiet fine locked called got =
      rw (quiet, fine, locked, called, same_number p.wait_object_0)
        (start_consume-drain p
          (record s { thread_status = accumulating; status_lock = true; world = v }) k refl got)
