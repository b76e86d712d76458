-- ===== src/Interfaces/Deeds.antt =====
-- What each step of Interfaces/World does to the queues that the message store holds, and to the nodes
-- that producers have in hand or in a group.
use jvmheap_scan.Base.{
  append-nil, ℕ, ◌+◌, ◌≤◌, ◌++◌, length, ◌%◌, ◌≡◌, refl, sym, ◌∙◌, none, some, List, [], ◌∷◌, ◌==◌,
  update,
}
use jvmheap_scan.Store.Memory.{Ptr, null, Store, ok}
use jvmheap_scan.Store.Seg.{Item}
use jvmheap_scan.Store.Frame.{same_result, stays, on_queue_message-Keeps, on_retrieve_message-Keeps}
use jvmheap_scan.Store.Grouped.{AreSized}
use jvmheap_scan.Store.Requests.{
  answer_all-snoc, AreAllowed-snoc, send, retrieve, Queues, no_messages, read_space, answer,
  answer_all, IsAllowed, AreAllowed, enqueue,
}
use jvmheap_scan.Store.Refinement.{queue-Represents, read-Spares}
use jvmheap_scan.Store.Represents.{Represents}
use jvmheap_scan.Store.{
  get_msg_group_holder, create_msg_node, on_queue_message, on_retrieve_message, Retrieved,
}
use jvmheap_scan.Sync.{space_id}
use jvmheap_scan.Sync.System.{begin, produce, consume}
use jvmheap_scan.Sync.Entry.{location}
use jvmheap_scan.Interfaces.World.{
  Hand, Group, World, Deed, create, produce, put, start_group, include, close, consume, read,
  Becomes, begin, then_deed,
}
use jvmheap_scan.Interfaces.Carried.{Carries}
use jvmheap_scan.Interfaces.Handed.{Carries-still, Carries-taken, Carries-given}
use jvmheap_scan.Interfaces.Collecting.{Carries-started, Carries-included, Carries-closed}

AreSized-snoc :
    (ms : List Item) (m : Item)
    → AreSized (ms ++ (m ∷ []))
    → AreSized ms × (length m.text + 1 ≤ m.size)
AreSized-snoc [] m h = (tt, h.0)
AreSized-snoc (n ∷ ms) m h = let (x, y) = AreSized-snoc ms m h.1 in ((h.0, x), y)

module _ (limit : ℕ) where
  -- What has been asked for leaves these queues.
  abbrev pub queues_of : World → Queues
  queues_of z = (answer_all limit z.asked no_messages).1

  -- The store holds the queues and has given the answers.
  pub record Answers (z : World) : Type 0 where
    pub carries : Carries limit z.store z.hand z.group (queues_of z)
    pub answered : z.answers ≡ (answer_all limit z.asked no_messages).0

  module _ {s : Store} {hand : ℕ → Hand} {group : Group} {q : Queues} (t : Store)
      (c : Carries limit s hand group q) where
    creates :
        (i : ℕ) (m : Item) (p : Ptr)
        → create_msg_node m.text m.size s ≡ ok p t
        → Carries limit t (update hand i (some (p, m))) group q
    unfolding create_msg_node
    creates i m p run =
        same_result (λ a t. Carries limit t (update hand i (some (a, m))) group q) refl run
          (Carries-given c i m)

    puts :
        (i id : ℕ) (m : Item) (p : Ptr)
        → hand i ≡ some (p, m)
        → IsAllowed limit (send id m) q
        → on_queue_message id p s ≡ ok tt t
        → Carries limit t (update hand i none) group (answer limit (send id m) q).1
    unfolding answer
    puts i id m p here allowed run =
        let w = c.waits i p m here in
        let (z, run', (r, u)) =
          queue-Represents limit s q c.rep id m p allowed w.placed w.ne_null w.old w.free in
        same_result
          (λ _ t.
            Carries limit t (update hand i none) group (enqueue q (get_msg_group_holder id) m))
          run' run
          (Carries-taken c i p m r here u (stays (on_queue_message-Keeps id p s refl) run'))

    reads :
        (sep : List ℕ) (id : ℕ) (r : Retrieved)
        → on_retrieve_message sep id s ≡ ok r t
        → Carries limit t hand group (answer limit (retrieve sep id) q).1
          × ((answer limit (retrieve sep id) q).0 ≡ r ∷ [])
    unfolding answer
    reads sep id r run =
        let (z, run', (k, u)) = read-Spares limit s q c.rep sep id in
        same_result
          (λ a t.
            Carries limit t hand group (read_space limit sep (id % 2 == 1) q).1
            × ((answer limit (retrieve sep id) q).0 ≡ a ∷ []))
          run' run
          (Carries-still c k (u null) (stays (on_retrieve_message-Keeps sep id s refl) run'), refl)

  -- The hypotheses on what has been asked for hold before a step if they hold after it.
  pub record AreServed (z : World) : Type 0 where
    pub allowed : AreAllowed limit z.asked no_messages
    pub sized : AreSized z.included

  AreServed-Deed : (y z : World) → Deed y z → AreServed z → AreServed y
  AreServed-Deed y z (put i {s} {e} {p} {m} at h run) k = record {
    allowed = (AreAllowed-snoc limit y.asked (send (location s e) m) no_messages k.allowed).0;
    sized = k.sized;
  }
  AreServed-Deed y z (read sep {s} at run) k = record {
    allowed = (AreAllowed-snoc limit y.asked (retrieve sep (space_id s)) no_messages k.allowed).0;
    sized = k.sized;
  }
  AreServed-Deed y z (include i m f h run) k = record {
    allowed = k.allowed;
    sized = (AreSized-snoc y.included m k.sized).0;
  }
  AreServed-Deed y z (create i m a h run) k = record { allowed = k.allowed; sized = k.sized }
  AreServed-Deed y z (produce i h mv) k = record { allowed = k.allowed; sized = k.sized }
  AreServed-Deed y z (consume st) k = record { allowed = k.allowed; sized = k.sized }
  AreServed-Deed y z (start_group i h run) k = record { allowed = k.allowed; sized = k.sized }
  AreServed-Deed y z (close i sep at h g run) k = record { allowed = k.allowed; sized = k.sized }

  Deed-Answers : (y z : World) → Deed y z → AreServed z → Answers y → Answers z
  unfolding answer
  Deed-Answers y z (create i m {p} {t} a h run) served k = record {
    carries = creates t k.carries i m p run;
    answered = k.answered;
  }
  Deed-Answers y z (produce i h mv) served k = record { carries = k.carries; answered = k.answered }
  Deed-Answers y z (put i {s} {e} {p} {m} {t} at h run) served k =
      let a = send (location s e) m in
      let (x, n) = answer_all-snoc limit y.asked a no_messages in
      let (_, room) = AreAllowed-snoc limit y.asked a no_messages served.allowed in
      record {
        carries = rw n (puts t k.carries i (location s e) m p h room run);
        answered = k.answered ∙ sym (x ∙ append-nil (answer_all limit y.asked no_messages).0);
      }
  Deed-Answers y z (start_group i {t} h run) served k = record {
    carries = Carries-started k.carries i t run;
    answered = k.answered;
  }
  Deed-Answers y z (include i m f {ms} {t} h run) served k = record {
    carries =
        Carries-included k.carries i ms h f m t (AreSized-snoc y.included m served.sized).1 run;
    answered = k.answered;
  }
  Deed-Answers y z (close i sep {ms} {p} {t} at h g run) served k = record {
    carries = Carries-closed k.carries i ms g sep p t run;
    answered = k.answered;
  }
  Deed-Answers y z (consume st) served k = record { carries = k.carries; answered = k.answered }
  Deed-Answers y z (read sep {s} {r} {t} at run) served k =
      let a = retrieve sep (space_id s) in
      let (x, n) = answer_all-snoc limit y.asked a no_messages in
      let (c, given) = reads t k.carries sep (space_id s) r run in
      record { carries = rw n c; answered = rw (k.answered, x, given) refl }

  pub Becomes-Answers :
      (t : Store) (z : World)
      → Represents limit t no_messages
      → Becomes t z
      → AreServed z
      → Answers z
  unfolding answer_all
  Becomes-Answers t z r begin served = record {
    carries = record {
      rep = r;
      waits = λ i p m h. absurd cc;
      own = λ i j p m n h h'. absurd cc;
      collects = λ i ms h. absurd cc;
    };
    answered = refl;
  }
  Becomes-Answers t z r (then_deed {y} b d) served =
      Deed-Answers y z d served (Becomes-Answers t y r b (AreServed-Deed y z d served))
