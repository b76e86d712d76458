-- ===== src/Interfaces/Handover.antt =====
-- The calls of Agent/src/c/JVMHeapScan.c for one group of messages, as Agent/src/c/MessageStore.c serves them.
use jvmheap_scan.Base.{ℕ, ◌≡◌, ◌≢◌, refl, ◌∙◌, false, List, [], ◌∷◌, ◌++◌, arith, map}
use jvmheap_scan.Agent.Message.{Message}
use jvmheap_scan.Agent.Message.Size.{IsExact}
use jvmheap_scan.Agent.Tags.{Event, include, start_group, flush_group}
use jvmheap_scan.Store.Memory.{Ptr, Store, Cmd, Run, ok, fault, out_of_fuel, pure, and_then, ◌>>◌}
use jvmheap_scan.Store.Seg.{Item}
use jvmheap_scan.Store.{
  get_msg_group_holder, on_start_msg_grp, on_include_message, on_flush_msg_grp, on_queue_message,
}
use jvmheap_scan.Store.Requests.{Queues, send, IsAllowed, enqueue}
use jvmheap_scan.Store.Represents.{Represents}
use jvmheap_scan.Store.Grouped.{include_all, send_group, joined, AreSized, send_group-Represents}

-- The calls that the agent makes, one after the other.
unfoldable pub hand_over : (Ptr → Cmd (Unit {0})) → List ℕ → List Event → Cmd (Unit {0})
hand_over produce sep [] = pure tt
hand_over produce sep (start_group ∷ es) = on_start_msg_grp >> hand_over produce sep es
hand_over produce sep (include m ∷ es) =
    on_include_message produce m.text m.size m.immediate >> hand_over produce sep es
hand_over produce sep (flush_group ∷ es) = on_flush_msg_grp produce sep >> hand_over produce sep es

-- What the store gets of a message.
abbrev pub item_of : Message → Item
item_of m = record { size = m.size; text = m.text }

-- The calls of one group.
abbrev pub message_group : List Message → List Event
message_group ms = (start_group ∷ map include ms) ++ (flush_group ∷ [])

-- No message is sent at once, and each fills its buffer exactly.
abbrev pub AreCollected : List Message → Type 0
AreCollected [] = Unit
AreCollected (m ∷ ms) = ((m.immediate ≡ false) × IsExact m) × AreCollected ms

AreCollected-AreSized : (ms : List Message) → AreCollected ms → AreSized (map item_of ms)
AreCollected-AreSized [] h = tt
AreCollected-AreSized (m ∷ ms) h = ((let e = h.0.1 in omega arith), AreCollected-AreSized ms h.1)

last_of : (r : Run (Unit {0})) → and_then r (λ _. pure tt) ≡ r
last_of (ok u t) = refl
last_of fault = refl
last_of out_of_fuel = refl

first_of :
    (r : Run (Unit {0})) (f g h : Cmd (Unit {0}))
    → ((s : Store) → f s ≡ (g >> h) s)
    → and_then r (λ _. f) ≡ and_then (and_then r (λ _. g)) (λ _. h)
first_of (ok u t) f g h e = e t
first_of fault f g h e = refl
first_of out_of_fuel f g h e = refl

module _ (produce : Ptr → Cmd (Unit {0})) (sep : List ℕ) where
  hand_over-includes :
      (ms : List Message) (s : Store)
      → AreCollected ms
      → hand_over produce sep (map include ms ++ (flush_group ∷ [])) s
        ≡ (include_all produce (map item_of ms) >> on_flush_msg_grp produce sep) s
  unfolding hand_over include_all
  hand_over-includes [] s h = last_of (on_flush_msg_grp produce sep s)
  hand_over-includes (m ∷ ms) s h = rw h.0.0 (
      first_of (on_include_message produce m.text m.size false s)
        (hand_over produce sep (map include ms ++ (flush_group ∷ [])))
        (include_all produce (map item_of ms)) (on_flush_msg_grp produce sep)
        (λ t. hand_over-includes ms t h.1))

  hand_over-group :
      (ms : List Message) (s : Store)
      → AreCollected ms
      → hand_over produce sep (message_group ms) s ≡ send_group produce sep (map item_of ms) s
  unfolding hand_over send_group
  hand_over-group ms s h = hand_over-includes ms _ h

-- A group of at least one message is one message for the queue that its location names, if that has
-- room: the texts in order with the separator between them.
pub hand_over-Represents :
    (limit id : ℕ) (sep : List ℕ) (ms : List Message) (s : Store) (q : Queues)
    → Represents limit s q
    → ms ≢ []
    → AreCollected ms
    → IsAllowed limit (send id (joined sep (map item_of ms))) q
    → (t : Store) × (hand_over (on_queue_message id) sep (message_group ms) s ≡ ok tt t)
      × Represents limit t (enqueue q (get_msg_group_holder id) (joined sep (map item_of ms)))
hand_over-Represents limit id sep ms s q r some_message collected allowed =
    let (t, run, r') =
      send_group-Represents limit id sep (map item_of ms) s q r (nonempty ms some_message)
        (AreCollected-AreSized ms collected) allowed in
    (t, hand_over-group (on_queue_message id) sep ms s collected ∙ run, r')
  where
    nonempty : (ms : List Message) → ms ≢ [] → map item_of ms ≢ []
    nonempty [] ne e = ne refl
    nonempty (m ∷ ms) ne e = cc
