-- ===== src/Sync/Handlers.antt =====
-- The functions of Agent/src/c/ThreadSync_PriorityProducer.c as one thread runs them from start to end
-- while no other thread takes a step. `none` is a wait that no one ends.
use jvmheap_scan.Base.{
  ℕ, zero, suc, ◌+◌, ◌-◌, Bool, true, false, Option, none, some, ◌==◌, if◌then◌else◌,
}
use jvmheap_scan.Store.Memory.{Ptr}
use jvmheap_scan.Sync.{
  Side, left, right, opposite, space_id, entry_id, Owner, free, producer, Shared, space_of,
  with_space, lock_of, with_lock,
}
use jvmheap_scan.Sync.System.{taken, given_back, may_take}

-- The shared variables together with whatever else the callbacks change.
abbrev pub Handler : Type 0 → Type 0 → Type 0
Handler W A = Shared × W → Option (A × (Shared × W))

abbrev pub and_then :
    {W A B : Type 0} → Option (A × (Shared × W)) → (A → Handler W B) → Option (B × (Shared × W))
and_then none k = none
and_then (some (a, w)) k = k a w

infixl 5 ◌>>=◌ ◌>>◌
abbrev pub ◌>>=◌ : {W A B : Type 0} → Handler W A → (A → Handler W B) → Handler W B
m >>= k = λ w. and_then (m w) k

abbrev pub ◌>>◌ : {W A B : Type 0} → Handler W A → Handler W B → Handler W B
m >> k = m >>= λ _. k

abbrev pub is_free : Owner → Bool
is_free free = true
is_free _ = false

-- `onTryConsumerEntry`, which waits a limited time: `WAIT_OBJECT_0` is `true`, the end of the time is
-- `false`.
unfoldable pub try_consumer_entry : Shared → Bool × Shared
try_consumer_entry m =
    if m.consumer_gate
    then (true, record m { consumer_in = true; consumer_gate = false })
    else (false, m)

module _ {W : Type 0} where
  abbrev pub pure : {A : Type 0} → A → Handler W A
  pure a w = some (a, w)

  abbrev pub shared : Handler W Shared
  shared (m, w) = some (m, (m, w))

  abbrev pub change : (Shared → Shared) → Handler W (Unit {0})
  change f (m, w) = some (tt, (f m, w))

  -- `changeSpace` of thread `i`. The two flags that it sets in a copy are left out with the copy.
  unfoldable pub change_space : ℕ → Handler W Side
  change_space i = do
    m ← shared
    if is_free m.main_producer_gate
        then (if (space_of (opposite m.current) m).is_ready then pure (opposite m.current) else (do
          change (λ n. record n { consumer_gate = true; current = opposite m.current })
          pure (opposite m.current)))
        else λ _. none

  -- `getMessageEntry`, whose loop goes from one entry to the other: the first that is free. For a thread
  -- other than the consumer's, which does not get an entry again that it owns itself.
  unfoldable pub get_message_entry : ℕ → Side → Handler W Side
  get_message_entry i s = do
    m ← shared
    if is_free (lock_of s left m)
        then change (with_lock s left (producer i)) >> pure left
        else if is_free (lock_of s right m)
        then change (with_lock s right (producer i)) >> pure right
        else λ _. none

  -- The first half of `onProduce`: the space whose gate lets the thread in.
  unfoldable pub enter_space : ℕ → Handler W Side
  enter_space i = do
    m ← shared
    if (space_of m.current m).gate
        then (do
          change (λ n. if m.consumer_in then n else record n { consumer_gate = true })
          pure m.current)
        else change_space i

  unfoldable pub on_produce : ℕ → (ℕ → Ptr → Handler W (Unit {0})) → Ptr → Handler W (Unit {0})
  on_produce i store_msg p = do
    s ← enter_space i
    change (λ m. with_space s (record (space_of s m) { accumulate_gate = true }) m)
    change (λ m. with_space s (record (space_of s m) { threads = (space_of s m).threads + 1 }) m)
    e ← get_message_entry i s
    store_msg (space_id s + entry_id e) p
    change (with_lock s e free)
    change (λ m. with_space s (record (space_of s m) { threads = (space_of s m).threads - 1 }) m)

  unfoldable pub on_try_consumer_entry : Handler W Bool
  unfolding try_consumer_entry
  on_try_consumer_entry (m, w) = let (entered, n) = try_consumer_entry m in some (entered, (n, w))

  abbrev pub take_entry : Side → Side → Handler W (Unit {0})
  take_entry s e = do
    m ← shared
    if may_take (lock_of s e m) then change (with_lock s e (taken (lock_of s e m))) else λ _. none

  -- `accumulateMessage`: the wait resets the event, which no one sets meanwhile, so that the second
  -- wait ends by its time.
  unfoldable pub accumulate_message : ℕ → Side → Handler W (Unit {0})
  accumulate_message zero s = λ _. none
  accumulate_message (suc k) s = do
    m ← shared
    if (space_of s m).accumulate_gate
        then (do
          change (λ n. with_space s (record (space_of s n) { accumulate_gate = false }) n)
          accumulate_message k s)
        else pure tt

  -- `onStartConsume`: the space that the consumer gets.
  unfoldable pub on_start_consume : Bool → Handler W Side
  unfolding accumulate_message
  on_start_consume accumulate = do
    m ← shared
    let s = m.current
    (if accumulate then accumulate_message 2 s else pure tt)
    change (λ n. with_space (opposite s) (record (space_of (opposite s) n) { gate = true }) n)
    change (λ n. record (with_space s (record (space_of s n) { gate = false }) n) {
      consumer_in = false;
    })
    n ← shared
    if (space_of s n).threads == 0 then take_entry s left >> take_entry s right >> pure s else λ _.
        none

  unfoldable pub on_end_consume : Side → Handler W (Unit {0})
  on_end_consume s = do
    change (λ m. with_lock s left (given_back (lock_of s left m)) m)
    change (λ m. with_lock s right (given_back (lock_of s right m)) m)
