-- ===== src/Interfaces/Laws.antt =====
-- The message store behind the synchronizer: Agent/src/c/MessageStore.c and
-- Agent/src/c/ThreadSync_PriorityProducer.c put together by their tables.
use jvmheap_scan.Base.{ℕ, ◌+◌, ◌-◌, ◌≡◌, true, false, some, arith, if◌then◌else◌}
use jvmheap_scan.Store.Memory.{Ptr, Store, Cmd, ok}
use jvmheap_scan.Store.{on_queue_message}
use jvmheap_scan.Sync.{Side, left, free, Shared, producer, space_of, with_space, lock_of, with_lock}
use jvmheap_scan.Sync.Entry.{location}
use jvmheap_scan.Sync.Handlers.{enter_space, get_message_entry, on_produce}
use jvmheap_scan.Interfaces.{data_store, in_store, get_synchronizer_interface}

-- What a call of `onProduce` leaves of the synchronizer: nobody notices but by the events, and the
-- consumer is called unless it is in.
pub record Unnoticed (m n : Shared) : Type 0 where
  pub current : n.current ≡ m.current
  pub locks : (s e : Side) → lock_of s e n ≡ lock_of s e m
  pub threads : (s : Side) → (space_of s n).threads ≡ (space_of s m).threads
  pub gates : (s : Side) → (space_of s n).gate ≡ (space_of s m).gate
  pub announces : m.consumer_in ≡ false → n.consumer_gate ≡ true

-- The shared variables after each statement of `onProduce` that writes one of them.
abbrev announced : Shared → Shared
announced m = if m.consumer_in then m else record m { consumer_gate = true }

abbrev counted : Side → Shared → Shared
counted d m =
    let n = with_space d (record (space_of d m) { accumulate_gate = true }) m in
    with_space d (record (space_of d n) { threads = (space_of d n).threads + 1 }) n

abbrev released : Side → Shared → Shared
released d m =
    let n = with_lock d left free m in
    with_space d (record (space_of d n) { threads = (space_of d n).threads - 1 }) n

abbrev produced : ℕ → Side → Shared → Shared
produced i d m = released d (with_lock d left (producer i) (counted d (announced m)))

produced-Unnoticed :
    (i : ℕ) (d : Side) (m : Shared) → lock_of d left m ≡ free → Unnoticed m (produced i d m)
produced-Unnoticed i d m unlocked = record {
  current = ground arith;
  locks = λ s e. ground arith;
  threads = λ s. ground arith;
  gates = λ s. ground arith;
  announces = λ out. ground arith;
}

still_free :
    (d : Side) (m : Shared)
    → lock_of d left m ≡ free
    → lock_of d left (counted d (announced m)) ≡ free
still_free d m h = ground arith

module _ {W : Type 0} (i : ℕ) (m : Shared) (w : W) where
  enter_space-open :
      (space_of m.current m).gate ≡ true → enter_space i (m, w) ≡ some (m.current, (announced m, w))
  unfolding enter_space
  enter_space-open h = rw h

  get_message_entry-left :
      (d : Side)
      → lock_of d left m ≡ free
      → get_message_entry i d (m, w) ≡ some (left, (with_lock d left (producer i) m, w))
  unfolding get_message_entry
  get_message_entry-left d h = rw h

in_store-ok :
    (c : Cmd (Unit {0})) (s t : Store) (m : Shared)
    → c s ≡ ok tt t
    → in_store c (m, s) ≡ some (tt, (m, t))
in_store-ok c s t m e = rw (in_store, e)

-- The current space lets the thread in and its left entry is free: a message that is produced is queued
-- there by the message store, and the synchronizer is left as it was but for the events that are set,
-- with which the consumer is called unless it is in.
pub on_produce-stores :
    (i : ℕ) (c : Side) (m : Shared) (s t : Store) (p : Ptr)
    → (space_of m.current m).gate ≡ true
    → lock_of m.current left m ≡ free
    → on_queue_message (location m.current left) p s ≡ ok tt t
    → (n : Shared) × ((get_synchronizer_interface i c data_store).on_produce p (m, s)
        ≡ some (tt, (n, t)))
      × Unnoticed m n
unfolding on_produce
on_produce-stores i c m s t p open_gate unlocked queued = (
  produced i m.current m,
  rw (
    enter_space-open i m s open_gate,
    get_message_entry-left i (counted m.current (announced m)) s m.current
        (still_free m.current m unlocked),
    in_store-ok (on_queue_message (location m.current left) p) s t
        (with_lock m.current left (producer i) (counted m.current (announced m))) queued,
  ),
  produced-Unnoticed i m.current m unlocked,
)
