-- ===== src/Interfaces/Sending.antt =====
-- That a message in the hand of a producer of Interfaces/World gets into the store where no one is in the
-- producer's way.
use jvmheap_scan.Base.{ℕ, ◌≡◌, refl, Bool, true, none, some, [], ◌∷◌, ◌++◌, arith, update}
use jvmheap_scan.Store.Memory.{Ptr, Store, ok}
use jvmheap_scan.Store.Seg.{Item}
use jvmheap_scan.Store.Requests.{send, no_messages, IsAllowed, AreAllowed}
use jvmheap_scan.Store.Grouped.{AreSized}
use jvmheap_scan.Store.{on_initialize, on_queue_message}
use jvmheap_scan.Sync.{Side, free, Shared}
use jvmheap_scan.Sync.System.{Pc, idle, storing, Move, System}
use jvmheap_scan.Sync.Entry.{location}
use jvmheap_scan.Sync.Progress.{
  Runs, stop, move, Through, not_storing, not_idle, HasRoom, producer-Stores,
}
use jvmheap_scan.Interfaces.World.{World, may_move, produce, put, Becomes, then_deed}
use jvmheap_scan.Interfaces.Deeds.{queues_of}
use jvmheap_scan.Interfaces.Concurrent.{IsUnset, on_queue_message-Becomes}

-- What producer `i` alone makes of a world.
pub data Alone (i : ℕ) (z : World) : World → Type 0 where
  rest : Alone i z z
  moves :
      {y : World} {m : Shared} {c : Pc}
      → Alone i z y
      → may_move (y.system.pc i) (y.hand i) ≡ true
      → Move i y.system.mem (y.system.pc i) m c
      → Alone i z (record y { system = record y.system { mem = m; pc = update y.system.pc i c } })
  puts :
      {y : World} {d e : Side} {p : Ptr} {m : Item} {t : Store}
      → Alone i z y
      → y.system.pc i ≡ storing d e
      → y.hand i ≡ some (p, m)
      → on_queue_message (location d e) p y.store ≡ ok tt t
      → Alone i z (record y {
        store = t;
        hand = update y.hand i none;
        asked = y.asked ++ (send (location d e) m ∷ []);
      })

Becomes-Alone : {i : ℕ} {t : Store} {z y : World} → Becomes t z → Alone i z y → Becomes t y
Becomes-Alone b rest = b
Becomes-Alone {i} b (moves a h mv) = then_deed (Becomes-Alone b a) (produce i h mv)
Becomes-Alone {i} b (puts a at h run) = then_deed (Becomes-Alone b a) (put i at h run)

-- A run of the producer without a store, in a world.
lifted :
    {i : ℕ} (from : Pc → Bool) {m n : Shared} {p q : Pc} (run : Runs i m p n q)
    → Through from run
    → (z y : World) → ((c : Pc) → from c ≡ true → may_move c (y.hand i) ≡ true)
    → y.system.mem ≡ m
    → y.system.pc i ≡ p
    → Alone i z y
    → (w : System) × (w.mem ≡ n) × (w.pc i ≡ q) × Alone i z (record y { system = w })
lifted from stop h z y may em ep a = (y.system, em, ep, a)
lifted {i} from (move {n = n} {p = p} {q = c} step run) h z y may em ep a =
    lifted from run h.1 z
      (record y { system = record y.system { mem = n; pc = update y.system.pc i c } }) may refl
      (ground arith) (moves a (rw ep (may p h.0)) (rw (em, ep) step))

may_before : (v : Ptr × Item) (c : Pc) → not_storing c ≡ true → may_move c (some v) ≡ true
may_before v idle h = refl
may_before v (storing d e) h = absurd cc
may_before v c h = refl

may_behind : (c : Pc) → not_idle c ≡ true → may_move c none ≡ true
may_behind idle h = absurd cc
may_behind (storing d e) h = refl
may_behind c h = refl

-- Producer `i` has sent its message, and is out again.
pub record Sends (i : ℕ) (m : Item) (z y : World) : Type 0 where
  pub alone : Alone i z y
  pub space : Side
  pub entry : Side
  pub asked : y.asked ≡ z.asked ++ (send (location space entry) m ∷ [])
  pub answers : y.answers ≡ z.answers
  pub out : y.system.pc i ≡ idle
  pub given : y.hand i ≡ none

-- In every interleaving of the producers, the consumer and a thread that collects groups, from a store
-- that has been initialized, in which each message comes to a queue with room and with a size that
-- covers its text: where each space has an entry that no one holds and no one changes the space, a
-- producer that has a node in hand and calls `onProduce`, and for whose message every queue has room,
-- gets it into the store, once, and out again, by its own steps alone.
pub producer-Sends :
    (limit : ℕ) (s t : Store) (z : World) (i : ℕ) (p : Ptr) (m : Item)
    → IsUnset s
    → on_initialize limit s ≡ ok tt t
    → Becomes t z
    → AreAllowed limit z.asked no_messages
    → AreSized z.included
    → ((d e : Side) → IsAllowed limit (send (location d e) m) (queues_of limit z))
    → z.system.mem.main_producer_gate ≡ free
    → HasRoom z.system.mem
    → z.system.pc i ≡ idle
    → z.hand i ≡ some (p, m)
    → (y : World) × Sends i m z y
producer-Sends limit s t z i p m u run b allowed sized room gate_free entries at here =
    let st = producer-Stores i z.system.mem gate_free entries in
    let (w, em, ep, a) =
      lifted not_storing st.until st.before z z (λ c h. rw here (may_before (p, m) c h)) refl at
        rest in
    let x : World = record z { system = w } in
    let (v, stored, _, _) =
      on_queue_message-Becomes limit s t x i st.space st.entry p m u run (Becomes-Alone b a) allowed
        sized (room st.space st.entry) ep here in
    let y : World = record x {
      store = v;
      hand = update x.hand i none;
      asked = x.asked ++ (send (location st.space st.entry) m ∷ []);
    } in
    let gone : y.hand i ≡ none = ground arith in
    let (w', em', ep', a') =
      lifted not_idle st.from st.behind z y (λ c h. rw gone (may_behind c h)) em ep
        (puts a ep here stored) in
    (
      record y { system = w' },
      record {
        alone = a';
        space = st.space;
        entry = st.entry;
        asked = refl;
        answers = refl;
        out = ep';
        given = gone;
      },
    )
