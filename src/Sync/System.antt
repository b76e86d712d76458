-- ===== src/Sync/System.antt =====
-- Producers and the consumer of Agent/src/c/ThreadSync_PriorityProducer.c, interleaved in any order,
-- one access of shared state at a time. The producers are threads other than the consumer's. The
-- consumer's own thread calls `onProduce` too, for what its client asks for: it owns the mutexes of a
-- space that it has been given and takes them again, which is left out here.
use jvmheap_scan.Base.{ℕ, suc, ◌+◌, ◌-◌, ◌≡◌, ◌≢◌, Bool, true, false, update}
use jvmheap_scan.Sync.{
  Side, left, right, opposite, Owner, free, producer, consumer, Shared, space_of, with_space,
  lock_of, with_lock, on_initialize,
}

-- Where a producer stands in `onProduce`, with its copy of the space.
pub data Pc : Type 0 where
  idle : Pc  -- outside
  entered : Side → Pc  -- `localSpace` is read
  closed : Pc  -- the gate was closed: start of `changeSpace`
  changing : Side → Bool → Pc  -- `otherSpace` is copied, with its `isReady`
  switching : Side → Bool → Pc  -- owns `mainProducerGate`
  turning : Side → Pc  -- the consumer has been woken
  leaving : Side → Pc  -- before `mainProducerGate` is released
  opened : Side → Pc  -- the gate was open
  announcing : Side → Pc  -- before `SetEvent(accumlateGate)`
  counting : Side → Pc  -- before `threads` is incremented
  seeking : Side → Side → Pc  -- in `getMessageEntry`, at this entry of the space
  storing : Side → Side → Pc  -- owns the entry: `STORE_MSG`, up to `ReleaseMutex`
  releasing : Side → Pc  -- before `threads` is decremented

-- The steps of producer `i`, which is not the consumer's thread: a mutex that another thread owns keeps
-- it waiting.
pub data Move (i : ℕ) (m : Shared) : Pc → Shared → Pc → Type 0 where
  enter : Move i m idle m (entered m.current)
  find_closed : {s : Side} → (space_of s m).gate ≡ false → Move i m (entered s) m closed
  find_open : {s : Side} → (space_of s m).gate ≡ true → Move i m (entered s) m (opened s)
  copy_other :
      Move i m closed m (changing (opposite m.current) (space_of (opposite m.current) m).is_ready)
  take_gate :
      {o : Side} {r : Bool}
      → m.main_producer_gate ≡ free
      → Move i m (changing o r) (record m { main_producer_gate = producer i }) (switching o r)
  wake_consumer :
      {o : Side} {r : Bool}
      → r ≡ false
      → Move i m (switching o r) (record m { consumer_gate = true }) (turning o)
  keep_space : {o : Side} {r : Bool} → r ≡ true → Move i m (switching o r) m (leaving o)
  turn : {o : Side} → Move i m (turning o) (record m { current = opposite m.current }) (leaving o)
  leave_gate :
      {o : Side} → Move i m (leaving o) (record m { main_producer_gate = free }) (announcing o)
  announce_in :
      {s : Side}
      → m.consumer_in ≡ false
      → Move i m (opened s) (record m { consumer_gate = true }) (announcing s)
  announce_none : {s : Side} → m.consumer_in ≡ true → Move i m (opened s) m (announcing s)
  set_accumulate :
      {s : Side}
      → Move i m
          (announcing s)
          (with_space s (record (space_of s m) { accumulate_gate = true }) m)
          (counting s)
  increment :
      {s : Side}
      → Move i m
          (counting s)
          (with_space s (record (space_of s m) { threads = (space_of s m).threads + 1 }) m)
          (seeking s left)
  acquire :
      {s e : Side}
      → lock_of s e m ≡ free
      → Move i m (seeking s e) (with_lock s e (producer i) m) (storing s e)
  time_out : {s e : Side} → lock_of s e m ≢ free → Move i m (seeking s e) m (seeking s (opposite e))
  release : {s e : Side} → Move i m (storing s e) (with_lock s e free m) (releasing s)
  decrement :
      {s : Side}
      → Move i m
          (releasing s)
          (with_space s (record (space_of s m) { threads = (space_of s m).threads - 1 }) m)
          idle

-- Where the consumer stands in `onTryConsumerEntry`, `onStartConsume` and `onEndConsume`.
pub data ConsumerPc : Type 0 where
  outside : ConsumerPc
  woken : ConsumerPc  -- before `consumerIn = TRUE`
  noted : ConsumerPc  -- before `ResetEvent(consumerGate)`
  granted : ConsumerPc  -- `onTryConsumerEntry` has returned `WAIT_OBJECT_0`
  opening : Side → ConsumerPc  -- before `SetEvent(otherSpace.gate)`
  closing : Side → ConsumerPc  -- before `ResetEvent(localSpace.gate)`
  clearing : Side → ConsumerPc  -- before `consumerIn = FALSE`
  draining : Side → ConsumerPc  -- waits for the producers that are counted
  locking_left : Side → ConsumerPc
  locking_right : Side → ConsumerPc
  consuming : Side → ConsumerPc  -- `onStartConsume` has returned
  unlocking : Side → ConsumerPc  -- in `onEndConsume`, the left entry is released

-- A mutex may be taken again by its owner.
abbrev pub taken : Owner → Owner
taken (consumer k) = consumer (suc k)
taken _ = consumer 0

abbrev pub given_back : Owner → Owner
given_back (consumer (suc k)) = consumer k
given_back _ = free

abbrev pub may_take : Owner → Bool
may_take (producer _) = false
may_take _ = true

-- The steps of the consumer. It may leave `onStartConsume` for the next round without a call of
-- `onEndConsume`.
pub data Consume (m : Shared) : ConsumerPc → Shared → ConsumerPc → Type 0 where
  wake : m.consumer_gate ≡ true → Consume m outside m woken
  note : Consume m woken (record m { consumer_in = true }) noted
  reset : Consume m noted (record m { consumer_gate = false }) granted
  start : Consume m granted m (opening m.current)
  open_other :
      {s : Side}
      → Consume m
          (opening s)
          (with_space (opposite s) (record (space_of (opposite s) m) { gate = true }) m)
          (closing s)
  close_local :
      {s : Side}
      → Consume m (closing s) (with_space s (record (space_of s m) { gate = false }) m) (clearing s)
  clear : {s : Side} → Consume m (clearing s) (record m { consumer_in = false }) (draining s)
  drained : {s : Side} → (space_of s m).threads ≡ 0 → Consume m (draining s) m (locking_left s)
  lock_left :
      {s : Side}
      → may_take (lock_of s left m) ≡ true
      → Consume m (locking_left s) (with_lock s left (taken (lock_of s left m)) m) (locking_right s)
  lock_right :
      {s : Side}
      → may_take (lock_of s right m) ≡ true
      → Consume m (locking_right s) (with_lock s right (taken (lock_of s right m)) m) (consuming s)
  next_round : {s : Side} → Consume m (consuming s) m outside
  unlock_left :
      {s : Side}
      → Consume m (consuming s) (with_lock s left (given_back (lock_of s left m)) m) (unlocking s)
  unlock_right :
      {s : Side}
      → Consume m (unlocking s) (with_lock s right (given_back (lock_of s right m)) m) outside

pub record System : Type 0 where
  pub mem : Shared
  pub pc : ℕ → Pc
  pub consumer_pc : ConsumerPc

pub data Step (z : System) : System → Type 0 where
  produce :
      (i : ℕ) {m : Shared} {p : Pc}
      → Move i z.mem (z.pc i) m p
      → Step z (record z { mem = m; pc = update z.pc i p })
  consume :
      {m : Shared} {c : ConsumerPc}
      → Consume z.mem z.consumer_pc m c
      → Step z (record z { mem = m; consumer_pc = c })

abbrev pub initial : System
initial = record { mem = on_initialize; pc = λ _. idle; consumer_pc = outside }

pub data Reach : System → Type 0 where
  begin : Reach initial
  then_step : {y z : System} → Reach y → Step y z → Reach z
