-- ===== src/Socket.antt =====
-- Agent/src/c/SocketOutputInterface.c, a function for each function of the thread that serves the
-- client.
pub mod Batches
pub mod Drain
pub mod Kill
pub mod Packets
pub mod Round
pub mod Examples
use jvmheap_scan.Base.{
  ℕ, zero, suc, ◌*◌, ◌%◌, ◌+◌, Bool, true, false, Option, none, some, List, [], ◌∷◌, ltb, leb, ◌==◌,
  ◌&&◌, not, if◌then◌else◌,
}
use jvmheap_scan.Base.Int.{ℤ, pos, negsuc}
use jvmheap_scan.Agent.Chars.{get_chars, decimal}
use jvmheap_scan.Agent.Message.{agent_exit, code_of}
use jvmheap_scan.Agent.Tags.{is_zero}
use jvmheap_scan.Store.{Retrieved}

-- `threadStatus`
pub data Status : Type 0 where
  idle listening waiting normal accumulating : Status

abbrev pub status_code : Status → ℕ
status_code idle = 0
status_code listening = 1
status_code waiting = 3
status_code normal = 4
status_code accumulating = 5

-- `errorCodes`; `none_failed` is `NONE`.
abbrev pub none_failed : ℕ
none_failed = 0

abbrev pub listen_socket_cleanup : ℕ
listen_socket_cleanup = 1

abbrev pub client_socket_cleanup : ℕ
client_socket_cleanup = 2

abbrev pub message_separator : List ℕ
message_separator = 10 ∷ []

-- The codes of incoming messages that have a branch: '1', '2' and '3'.
abbrev pub follow_reference_code : ℕ
follow_reference_code = 49

abbrev pub start_gc_code : ℕ
start_gc_code = 50

abbrev pub get_basic_data_code : ℕ
get_basic_data_code = 51

abbrev pub consumer_wait_seconds : ℕ
consumer_wait_seconds = 100

abbrev pub same_status : ℤ → ℤ → Bool
same_status (pos n) (pos m) = n == m
same_status (negsuc n) (negsuc m) = n == m
same_status _ _ = false

-- What the thread calls: Winsock on its two sockets, and the interfaces of the agent, the
-- synchronizer and the message store. `retrieve_msg` gives nothing where its behaviour is undefined,
-- `on_start_consume` where it waits for ever.
pub record Peer : Type 1 where
  pub World : Type 0
  pub socket_error : ℤ
  pub wait_object_0 : ℕ
  pub pending_input : World → ℤ × ℕ
  pub recv : ℕ → World → List ℕ × World
  pub send : List ℕ × ℕ → World → ℤ × World
  pub close_client : World → ℤ × World
  pub close_listener : World → ℤ × World
  pub listen : World → ℤ × World
  pub accept : World → World
  pub set_non_blocking : World → ℤ × World
  pub follow_reference : World → World
  pub start_gc : World → World
  pub on_get_class_metadata : World → World
  pub on_try_consumer_entry : ℕ → World → ℕ × World
  pub on_start_consume : World → Option (ℕ × World)
  pub retrieve_msg : ℕ → World → Option (Retrieved × World)

module _ (p : Peer) where
  -- The static variables of the thread. `status_lock` is an event.
  pub record Output : Type 0 where
    pub thread_status : Status
    pub status_lock : Bool
    pub die : Bool
    pub world : p.World

  -- `exited` is `ExitThread` with its code, `fatal` the end of the process, `stuck` a wait for ever.
  pub data Outcome (A : Type 0) : Type 0 where
    running : A → Output → Outcome A
    exited : ℕ → Output → Outcome A
    fatal : Outcome A
    stuck : Outcome A
    undefined : Outcome A
    out_of_fuel : Outcome A

  abbrev pub Act : Type 0 → Type 0
  Act A = Output → Outcome A

  abbrev pub pure : {A : Type 0} → A → Act A
  pure a s = running a s

  abbrev pub and_then : {A B : Type 0} → Outcome A → (A → Act B) → Outcome B
  and_then (running a s) k = k a s
  and_then (exited c s) k = exited c s
  and_then fatal k = fatal
  and_then stuck k = stuck
  and_then undefined k = undefined
  and_then out_of_fuel k = out_of_fuel

  infixl 5 ◌>>=◌ ◌>>◌
  abbrev pub ◌>>=◌ : {A B : Type 0} → Act A → (A → Act B) → Act B
  m >>= k = λ s. and_then (m s) k

  abbrev pub ◌>>◌ : {A B : Type 0} → Act A → Act B → Act B
  m >> k = m >>= λ _. k

  -- A call of the world
  abbrev pub call : {A : Type 0} → (p.World → A × p.World) → Act A
  call f s = let (a, w) = f s.world in running a (record s { world = w })

  abbrev pub run : (p.World → p.World) → Act (Unit {0})
  run f s = running tt (record s { world = f s.world })

  abbrev pub on_check_socket_error : ℤ → Act (Unit {0})
  on_check_socket_error status = if is_zero status then pure tt else λ _. fatal

  abbrev pub exit_message : List ℕ × ℕ
  exit_message = (decimal (code_of agent_exit), get_chars (code_of agent_exit) + 1)

  -- The first half of `onCleanSocket`: whether closing the client's socket has failed.
  unfoldable pub leave_client : Status → p.World → Bool × p.World
  leave_client status w =
      if ltb (status_code listening) (status_code status)
      then (let (err, v) = p.close_client (p.send exit_message w).1 in
          (same_status err p.socket_error, v))
      else (false, w)

  -- The error code: 0 none, 1 listening socket, 2 client socket.
  unfoldable pub on_clean_socket : Status → p.World → ℕ × p.World
  unfolding leave_client
  on_clean_socket status w =
      let (failed, v) = leave_client status w in
      if failed
      then (client_socket_cleanup, v)
      else if ltb (status_code idle) (status_code status)
      then (let (err, u) = p.close_listener v in
          ((if same_status err p.socket_error then listen_socket_cleanup else none_failed), u))
      else (none_failed, v)

  unfoldable pub on_thread_exit : {A : Type 0} → Act A
  unfolding on_clean_socket
  on_thread_exit s =
      let (err, w) = on_clean_socket s.thread_status s.world in exited err (record s { world = w })

  unfoldable pub on_change_status : Status → Act (Unit {0})
  unfolding on_thread_exit
  on_change_status status s =
      if s.status_lock
      then running tt (record s { thread_status = status })
      else if s.die
      then on_thread_exit s
      else running tt s

  -- What `onKillThread` leaves, and whether it queues `onThreadExit` for the next wait.
  unfoldable pub on_kill_thread : Output → Bool × Output
  on_kill_thread s = (
    ltb 0 (status_code s.thread_status) && (status_code s.thread_status % 2 == 1),
    record s { status_lock = false; die = true },
  )

  -- `onStart`, up to its call of `startFlushProcess`.
  unfoldable pub on_start : Act (Unit {0})
  unfolding on_change_status
  on_start = do
    status ← call p.listen
    on_check_socket_error status
    (λ s. running tt (record s { status_lock = true }))
    on_change_status listening
    run p.accept
    on_change_status normal
    mode ← call p.set_non_blocking
    on_check_socket_error mode

  unfoldable pub on_handle_socket_error : Act (Unit {0})
  unfolding on_start
  on_handle_socket_error = call p.close_client >> on_start

  -- The status, the number of bytes that wait, and the bytes read.
  unfoldable pub check_incoming_msg : Act (ℤ × (ℕ × List ℕ))
  check_incoming_msg s =
      let (status, length) = p.pending_input s.world in
      if same_status status p.socket_error
      then running (status, (length, [])) s
      else if length == 0
      then running (status, (length, [])) s
      else (let (bytes, w) = p.recv length s.world in
          running (status, (length, bytes)) (record s { world = w }))

  -- The buffer is filled with zeros before it is read into.
  abbrev pub message_code : List ℕ → ℕ
  message_code [] = 0
  message_code (b ∷ bs) = b

  unfoldable pub dispatch : ℕ → p.World → p.World
  dispatch code w =
      if code == follow_reference_code
      then p.follow_reference w
      else if code == start_gc_code
      then p.start_gc w
      else if code == get_basic_data_code
      then p.on_get_class_metadata w
      else w

  unfoldable pub process_incoming_message : Act ℤ
  unfolding check_incoming_msg dispatch
  process_incoming_message = do
    (status, (length, bytes)) ← check_incoming_msg
    if not (is_zero status)
        then pure status
        else if ltb 0 length
        then run (dispatch (message_code bytes)) >> pure status
        else pure status

  unfoldable pub retrieve : ℕ → Act Retrieved
  retrieve id s = elim (p.retrieve_msg id s.world) [
    | none ↦ undefined
    | some (r, w) ↦ running r (record s { world = w })
  ]

  -- Whether sending has failed, where there is something to send.
  unfoldable pub send_retrieved : Retrieved → Act Bool
  send_retrieved r =
      if ltb 0 r.total_msg
      then elim r.text [
        | none ↦ λ _. undefined
        | some m ↦ (do status ← call (p.send m); pure (same_status status p.socket_error))
      ]
      else pure false

  -- The inner `while` of `startFlushProcess`: whether it leaves the outer one too.
  unfoldable pub drain : ℕ → ℕ → Act Bool
  unfolding retrieve send_retrieved on_handle_socket_error
  drain zero id = λ _. out_of_fuel
  drain (suc k) id = do
    r ← retrieve id
    failed ← send_retrieved r
    elim failed [
      | true ↦ on_handle_socket_error >> pure true
      | false ↦ elim r.pending [ true ↦ drain k id | false ↦ pure false ]
    ]

  unfoldable pub start_consume : Act ℕ
  start_consume s = elim (p.on_start_consume s.world) [
    | none ↦ stuck
    | some (id, w) ↦ running id (record s { world = w })
  ]

  -- One round of the outer `while`. `true` is its `break`, after `onHandleSocketError`.
  unfoldable pub flush_round : ℕ → Act Bool
  unfolding process_incoming_message on_handle_socket_error on_change_status start_consume
  flush_round k = do
    received ← process_incoming_message
    if same_status received p.socket_error then on_handle_socket_error >> pure true else do
      on_change_status waiting
      entry ← call (p.on_try_consumer_entry (consumer_wait_seconds * 1000))
      if not (entry == p.wait_object_0) then pure false else do
        on_change_status accumulating
        id ← start_consume
        on_change_status normal
        drain k id
