-- ===== src/Sync/Examples.antt =====
-- Runs of Agent/src/c/ThreadSync_PriorityProducer.c, and the theorems at the states they reach.
use jvmheap_scan.Base.{none, List, [], ◌∷◌, ℕ, arith, ◌≤◌, ◌≡◌, ◌≢◌, refl, inl, true, false, some}
use jvmheap_scan.Sync.{Shared, lock_of, Side, left, right, on_initialize, space_of}
use jvmheap_scan.Sync.System.{
  announcing, draining, locking_left, storing, consuming, unlocking, Move, Consume, System, produce,
  consume, Reach, begin, then_step,
}
use jvmheap_scan.Sync.Exclusion.{exclusive_storing}
use jvmheap_scan.Sync.Progress.{HasRoom}
use jvmheap_scan.Sync.Handlers.{on_produce, on_start_consume, on_end_consume}
use jvmheap_scan.Sync.Turns.{Turn, on_end_consume-on_start_consume}
use jvmheap_scan.Sync.Stuck.{Serves, now, next_step, never_storing_again}
use jvmheap_scan.Sync.Gates.{Copied, never_ready}
use jvmheap_scan.Sync.Entry.{exclusive_holder}
use jvmheap_scan.Sync.Threads.{Counted, threads-count, inside-threads}
use jvmheap_scan.Sync.Undone.{change_twice}
use jvmheap_scan.Sync.Hang.{turn, queued, third_message-hangs}

record Run : Type 0 where
  last : System
  reach : Reach last

-- Producer 0 stores its first message in the left entry of the left space.
abbrev first_store : Run
first_store = record {
  last = _;
  reach =
      then_step
        (then_step
          (then_step
            (then_step
              (then_step (then_step begin (produce 0 Move.enter)) (produce 0 (Move.find_open refl)))
              (produce 0 (Move.announce_in refl)))
            (produce 0 Move.set_accumulate))
          (produce 0 Move.increment))
        (produce 0 (Move.acquire refl));
}

abbrev granted_once : Run
granted_once = record {
  last = _;
  reach =
      then_step
        (then_step
          (then_step
            (then_step
              (then_step (then_step first_store.reach (produce 0 Move.release))
                (produce 0 Move.decrement))
              (consume (Consume.wake refl)))
            (consume Consume.note))
          (consume Consume.reset))
        (consume Consume.start);
}

-- The producer has left, and the consumer owns both entries of the left space.
abbrev first_consume : Run
first_consume = record {
  last = _;
  reach =
      then_step
        (then_step
          (then_step
            (then_step
              (then_step (then_step granted_once.reach (consume Consume.open_other))
                (consume Consume.close_local))
              (consume Consume.clear))
            (consume (Consume.drained refl)))
          (consume (Consume.lock_left refl)))
        (consume (Consume.lock_right refl));
}

-- The producer comes back, finds the gate of the left space closed, and takes the main gate.
abbrev space_change : Run
space_change = record {
  last = _;
  reach =
      then_step
        (then_step
          (then_step (then_step first_consume.reach (produce 0 Move.enter))
            (produce 0 (Move.find_closed refl)))
          (produce 0 Move.copy_other))
        (produce 0 (Move.take_gate refl));
}

exclusive_storing_example : ◌≡◌ {A = ℕ} 0 0
exclusive_storing_example = exclusive_storing left left 0 0 first_store.reach refl refl

exclusive_holder_example : ◌≡◌ {A = ℕ} 0 0
exclusive_holder_example = exclusive_holder left left left left 0 0 first_store.reach refl refl refl

never_ready_example :
    ((s : Side) → (space_of s space_change.last.mem).is_ready ≡ false)
    × ((i : ℕ) → Copied (space_change.last.pc i))
never_ready_example = never_ready space_change.reach

away : (s : Side) → consuming left ≢ unlocking s
away s h = cc

record Service : Type 0 where
  after : System
  serves : Serves first_consume.last after

-- The producer that comes back takes the main gate, while the consumer keeps its locks.
abbrev kept_locks : Service
kept_locks = record {
  after = _;
  serves =
      next_step
        (next_step
          (next_step (next_step now (produce 0 Move.enter) away) (produce 0 (Move.find_closed refl))
            away)
          (produce 0 Move.copy_other) away)
        (produce 0 (Move.take_gate refl)) away;
}

never_storing_again_example : kept_locks.after.pc 0 ≢ storing left left
never_storing_again_example =
    never_storing_again first_consume.reach left refl left 0 kept_locks.serves

begun_room : HasRoom on_initialize
begun_room left = inl refl
begun_room right = inl refl

on_end_consume-on_start_consume_example :
    (n k : Shared) × (on_start_consume {W = ℕ} true (on_initialize, 7) ≡ some (left, (n, 7)))
    × Turn on_initialize n
    × (on_end_consume {W = ℕ} left (n, 7) ≡ some (tt, (k, 7)))
    × ((s e : Side) → lock_of s e k ≡ lock_of s e on_initialize)
on_end_consume-on_start_consume_example =
    on_end_consume-on_start_consume {W = ℕ} true on_initialize 7 refl refl refl

-- While the consumer has the left space, producers 1 and 2 find its gate closed.
abbrev both_changing : Run
both_changing = record {
  last = _;
  reach =
      then_step
        (then_step
          (then_step
            (then_step
              (then_step (then_step first_consume.reach (produce 1 Move.enter))
                (produce 1 (Move.find_closed refl)))
              (produce 1 Move.copy_other))
            (produce 2 Move.enter))
          (produce 2 (Move.find_closed refl)))
        (produce 2 Move.copy_other);
}

change_twice_example :
    (w : System) × Reach w
    × (w.mem.current ≡ left)
    × ((s : Side) → (space_of s w.mem).gate ≡ (space_of s both_changing.last.mem).gate)
    × (w.pc 1 ≡ announcing right)
    × (w.pc 2 ≡ announcing right)
change_twice_example = change_twice 1 2 both_changing.reach (omega arith) refl refl refl

threads-count_example : (n : ℕ) × Counted n first_store.last.mem first_store.last.pc
threads-count_example = threads-count first_store.reach

inside-threads_example :
    (1 ≤ (space_of left first_store.last.mem).threads)
    × ((m : Shared) (d : Side)
        → Consume first_store.last.mem (draining left) m (locking_left d)
        → ⊥)
inside-threads_example = inside-threads left 0 first_store.reach refl

-- The store as the list of what is queued, and where.
third_message-hangs_example :
    (m n : Shared) × (turn {W = List (ℕ × ℕ)} (λ id p w. (id, p) ∷ w) false 0 7 (on_initialize, [])
      ≡ some ((true, left), (m, (2, 7) ∷ [])))
    × (turn {W = List (ℕ × ℕ)} (λ id p w. (id, p) ∷ w) false 1 8 (m, (2, 7) ∷ [])
        ≡ some ((true, right), (n, (3, 8) ∷ (2, 7) ∷ [])))
    × (on_produce 2 (queued {W = List (ℕ × ℕ)} (λ id p w. (id, p) ∷ w)) 9 (n, (3, 8) ∷ (2, 7) ∷ [])
        ≡ none)
third_message-hangs_example = third_message-hangs (λ id p w. (id, p) ∷ w) false 0 1 2 7 8 9 []
