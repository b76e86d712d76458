-- ===== src/Interfaces/Report.antt =====
-- What Agent/src/c/JVMHeapScan.c hands to the table of Agent/src/c/MessageStore.c, as the store serves it.
use jvmheap_scan.Base.{
  ℕ, ◌+◌, ◌<◌, ◌^◌, ◌≡◌, ◌≢◌, ◌⊎◌, refl, sym, ap, ◌∙◌, false, List, [], ◌∷◌, ◌++◌, arith, length,
  map,
}
use jvmheap_scan.Base.Int.{ℤ}
use jvmheap_scan.Agent.Message.Size.{store_class_tag_msg-IsExact}
use jvmheap_scan.Agent.Message.{store_class_tag_msg}
use jvmheap_scan.Agent.Tags.{Event, include, start_group, flush_group}
use jvmheap_scan.Agent.Tags.{Jvmti, Agent, done, on_get_class_metadata}
use jvmheap_scan.Agent.Tags.Laws.{Laws, sign_of}
use jvmheap_scan.Agent.Tags.Bounded.{
  class_event, HaveTags, IsBounded, entered, loaded_classes, on_get_class_metadata-HaveTags,
}
use jvmheap_scan.Store.Memory.{Store, ok}
use jvmheap_scan.Store.Seg.{Item}
use jvmheap_scan.Store.{get_msg_group_holder, on_queue_message}
use jvmheap_scan.Store.Requests.{Queues, enqueue}
use jvmheap_scan.Store.Represents.{Represents}
use jvmheap_scan.Store.Grouped.{joined}
use jvmheap_scan.Interfaces.Handover.{
  hand_over, item_of, message_group, AreCollected, hand_over-Represents,
}
use jvmheap_scan.Agent.Message.{Message}

-- The message of a class.
abbrev pub class_message : ℤ × List ℕ → Message
class_message (tag, sign) = store_class_tag_msg tag sign false

-- What the store gets of a class.
abbrev pub class_item : ℤ × List ℕ → Item
class_item c = item_of (class_message c)

-- The calls of one group of classes.
abbrev pub class_group : List (ℤ × List ℕ) → List Event
class_group cs = message_group (map class_message cs)

HaveTags-AreCollected : (cs : List (ℤ × List ℕ)) → HaveTags cs → AreCollected (map class_message cs)
unfolding store_class_tag_msg
HaveTags-AreCollected [] h = tt
HaveTags-AreCollected ((tag, sign) ∷ cs) h =
    ((refl, store_class_tag_msg-IsExact tag sign false h.0), HaveTags-AreCollected cs h.1)

class_events : (cs : List (ℤ × List ℕ)) → map class_event cs ≡ map include (map class_message cs)
class_events [] = refl
class_events (c ∷ cs) = ap (λ l. class_event c ∷ l) (class_events cs)

class_items : (cs : List (ℤ × List ℕ)) → map item_of (map class_message cs) ≡ map class_item cs
class_items [] = refl
class_items (c ∷ cs) = ap (λ l. class_item c ∷ l) (class_items cs)

no_classes : {A B : Type 0} (f : A → B) (os : List A) → map f os ≡ [] → os ≡ []
no_classes f [] e = refl
no_classes f (o ∷ os) e = cc

-- If the calls of the JVM Tool Interface succeed, there is a loaded class, each tag is a number up to
-- `lastTag` when the monitor has been entered, and there is room for as many tags as classes below
-- 2 ^ 31, then what `onGetClassMetadata` hands to the store becomes one message of the queue that its
-- location names, if that has room: the classes in order, each with its signature and a tag, with the
-- separator between them.
pub class_report-Represents :
    (j : Jvmti) (laws : Laws j) (a : Agent j) (limit id : ℕ) (sep : List ℕ) (s : Store) (q : Queues)
    → IsBounded j (entered j a)
    → a.last_tag + length (loaded_classes j a) < 2 ^ 31
    → loaded_classes j a ≢ []
    → Represents limit s q
    → (limit ≡ 0) ⊎ (length (q (get_msg_group_holder id)) < limit)
    → (b : Agent j) × (cs : List (ℤ × List ℕ)) × (t : Store) × (on_get_class_metadata j a
        ≡ done tt b)
      × (b.sent ≡ a.sent ++ class_group cs)
      × (map (λ c. c.1) cs ≡ map (λ o. sign_of j o a) (loaded_classes j a))
      × (hand_over (on_queue_message id) sep (class_group cs) s ≡ ok tt t)
      × Represents limit t (enqueue q (get_msg_group_holder id) (joined sep (map class_item cs)))
class_report-Represents j laws a limit id sep s q bounded small some_class r room =
    let (b, cs, run, sent, tags, signs) = on_get_class_metadata-HaveTags j laws a bounded small in
    let (t, runs, r') =
      hand_over-Represents limit id sep (map class_message cs) s q r
        (λ e. some_class (
          no_classes (λ o. sign_of j o a) (loaded_classes j a)
            (sym signs ∙ ap (λ l. map (λ c. c.1) l) (no_classes class_message cs e))))
        (HaveTags-AreCollected cs tags) (room, omega arith) in
    (
      b,
      cs,
      t,
      run,
      sent ∙ ap (λ l. a.sent ++ ((start_group ∷ l) ++ (flush_group ∷ []))) (class_events cs),
      signs,
      runs,
      rw (← class_items cs) r',
    )
