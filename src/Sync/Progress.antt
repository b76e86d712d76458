-- ===== src/Sync/Progress.antt =====
-- That a producer of Agent/src/c/ThreadSync_PriorityProducer.c gets on where no one is in its way.
use jvmheap_scan.Base.{
  ℕ, ◌+◌, ◌≡◌, ◌≢◌, ◌⊎◌, ◌∙◌, inl, inr, refl, Bool, true, false, Bool-cases, arith,
}
use jvmheap_scan.Sync.{
  Side, left, right, Owner, free, producer, consumer, Shared, space_of, with_space, lock_of,
  with_lock,
}
use jvmheap_scan.Sync.System.{
  Pc, idle, switching, leaving, opened, announcing, seeking, storing, Move, enter, find_closed,
  find_open, copy_other, take_gate, wake_consumer, keep_space, turn, leave_gate, announce_in,
  announce_none, set_accumulate, increment, acquire, time_out, release, decrement,
}

-- Steps of producer `i` alone.
pub data Runs (i : ℕ) : Shared → Pc → Shared → Pc → Type 0 where
  stop : {m : Shared} {p : Pc} → Runs i m p m p
  move : {m n k : Shared} {p q r : Pc} → Move i m p n q → Runs i n q k r → Runs i m p k r

-- The steps are taken from such places only.
abbrev pub Through : (Pc → Bool) → {i : ℕ} {m n : Shared} {p q : Pc} → Runs i m p n q → Type 0
Through from stop = Unit
Through from (move {p = p} step r) = (from p ≡ true) × Through from r

abbrev pub not_storing : Pc → Bool
not_storing (storing _ _) = false
not_storing _ = true

abbrev pub not_idle : Pc → Bool
not_idle idle = false
not_idle _ = true

-- Producer `i` gets to store its message in an entry, and from there out of `onProduce`, with the
-- entry free again and no one changing the space.
pub record Stores (i : ℕ) (m : Shared) (p : Pc) : Type 0 where
  pub space : Side
  pub entry : Side
  pub at : Shared
  pub after : Shared
  pub until : Runs i m p at (storing space entry)
  pub mine : lock_of space entry at ≡ producer i
  pub before : Through not_storing until
  pub from : Runs i at (storing space entry) after idle
  pub behind : Through not_idle from
  pub given_back : lock_of space entry after ≡ free
  pub unchanging : after.main_producer_gate ≡ free

-- Each space has an entry that no one holds.
abbrev pub HasRoom : Shared → Type 0
HasRoom m = (s : Side) → (lock_of s left m ≡ free) ⊎ (lock_of s right m ≡ free)

is_held : (o : Owner) → (o ≡ free) ⊎ (o ≢ free)
is_held free = inl refl
is_held (producer i) = inr (λ e. cc)
is_held (consumer n) = inr (λ e. cc)

-- The space after the two accesses before `getMessageEntry`.
abbrev counted_in : Side → Shared → Shared
counted_in s m =
    let n = with_space s (record (space_of s m) { accumulate_gate = true }) m in
    with_space s (record (space_of s n) { threads = (space_of s n).threads + 1 }) n

counted_lock : (s d e : Side) (m : Shared) → lock_of d e (counted_in s m) ≡ lock_of d e m
counted_lock s d e m = ground arith

counted_room : (s : Side) (m : Shared) → HasRoom m → HasRoom (counted_in s m)
counted_room s m room d = elim (room d) [
  | inl left_free ↦ inl (counted_lock s d left m ∙ left_free)
  | inr right_free ↦ inr (counted_lock s d right m ∙ right_free)
]

module _ (i : ℕ) where
  earlier :
      {m n : Shared} {p q : Pc}
      → Move i m p n q
      → not_storing p ≡ true
      → Stores i n q
      → Stores i m p
  earlier step ne h = record {
    space = h.space;
    entry = h.entry;
    at = h.at;
    after = h.after;
    until = move step h.until;
    before = (ne, h.before);
    mine = h.mine;
    from = h.from;
    behind = h.behind;
    given_back = h.given_back;
    unchanging = h.unchanging;
  }

  from_free_entry :
      (s e : Side) (m : Shared)
      → m.main_producer_gate ≡ free
      → lock_of s e m ≡ free
      → Stores i m (seeking s e)
  from_free_entry s e m gate_free unlocked = record {
    space = s;
    entry = e;
    at = with_lock s e (producer i) m;
    after = _;
    until = move (acquire unlocked) stop;
    before = (refl, tt);
    mine = ground arith;
    from = move release (move decrement stop);
    behind = (refl, (refl, tt));
    given_back = ground arith;
    unchanging = gate_free;
  }

  from_seeking :
      (s : Side) (m : Shared)
      → m.main_producer_gate ≡ free
      → HasRoom m
      → Stores i m (seeking s left)
  from_seeking s m gate_free room = elim (room s) [
    | inl left_free ↦ from_free_entry s left m gate_free left_free
    | inr right_free ↦ elim (is_held (lock_of s left m)) [
      | inl left_free ↦ from_free_entry s left m gate_free left_free
      | inr held ↦ earlier (time_out held) refl (from_free_entry s right m gate_free right_free)
    ]
  ]

  from_announcing :
      (s : Side) (m : Shared) → m.main_producer_gate ≡ free → HasRoom m → Stores i m (announcing s)
  from_announcing s m gate_free room =
      earlier set_accumulate refl
        (earlier increment refl (from_seeking s _ gate_free (counted_room s m room)))

  from_leaving : (s : Side) (m : Shared) → HasRoom m → Stores i m (leaving s)
  from_leaving s m room = earlier leave_gate refl (from_announcing s _ refl room)

  from_opened :
      (s : Side) (m : Shared) → m.main_producer_gate ≡ free → HasRoom m → Stores i m (opened s)
  from_opened s m gate_free room = elim (Bool-cases m.consumer_in) [
    | inl in_there ↦ earlier (announce_none in_there) refl (from_announcing s m gate_free room)
    | inr outside ↦ earlier (announce_in outside) refl (from_announcing s _ gate_free room)
  ]

  from_switching : (s : Side) (r : Bool) (m : Shared) → HasRoom m → Stores i m (switching s r)
  from_switching s true m room = earlier (keep_space refl) refl (from_leaving s m room)
  from_switching s false m room =
      earlier (wake_consumer refl) refl (earlier turn refl (from_leaving s _ room))

  -- Where each space has an entry that no one holds, and no one changes the space, a producer that
  -- calls `onProduce` gets to store its message in an entry that it owns, and out again with the
  -- entry free and no one changing the space, by its own steps alone.
  pub producer-Stores : (m : Shared) → m.main_producer_gate ≡ free → HasRoom m → Stores i m idle
  producer-Stores m gate_free room =
      earlier enter refl (elim (Bool-cases (space_of m.current m).gate) [
        | inl is_open ↦ earlier (find_open is_open) refl (from_opened m.current m gate_free room)
        | inr is_closed ↦ earlier (find_closed is_closed) refl (
            earlier copy_other refl
              (earlier (take_gate gate_free) refl (from_switching _ _ _ room)))
      ])
