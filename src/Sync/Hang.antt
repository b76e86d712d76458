-- ===== src/Sync/Hang.antt =====
-- What becomes of the third message for Agent/src/c/ThreadSync_PriorityProducer.c where the consumer
-- never calls `onEndConsume`, as the loop of Agent/src/c/SocketOutputInterface.c does not.
use jvmheap_scan.Base.{ℕ, ◌≡◌, refl, Bool, true, false, none, some}
use jvmheap_scan.Store.Memory.{Ptr}
use jvmheap_scan.Sync.{Side, left, right, Shared, on_initialize}
use jvmheap_scan.Sync.Entry.{location}
use jvmheap_scan.Sync.Handlers.{
  Handler, ◌>>=◌, ◌>>◌, pure, change_space, get_message_entry, enter_space, on_produce,
  try_consumer_entry, on_try_consumer_entry, accumulate_message, on_start_consume,
}

module _ {W : Type 0} (queue : ℕ → Ptr → W → W) where
  -- A message store that does not wait.
  abbrev pub queued : ℕ → Ptr → Handler W (Unit {0})
  queued id p (m, w) = some (tt, (m, queue id p w))

  -- Thread `i` produces a message, and then the consumer looks for its space: whether it is let in,
  -- and which space it gets.
  abbrev pub turn : Bool → ℕ → Ptr → Handler W (Bool × Side)
  turn accumulate i p = do
    on_produce i queued p
    entered ← on_try_consumer_entry
    s ← on_start_consume accumulate
    pure (entered, s)

-- From the start, with a message store that does not wait and that accumulates or not: after each of
-- the first two messages the consumer is let in and gets the space where the message was stored, the
-- left one and then the right one. Then a producer of a third message, alone, waits for ever.
pub third_message-hangs :
    {W : Type 0} (queue : ℕ → Ptr → W → W) (accumulate : Bool) (i j k : ℕ) (p q r : Ptr) (w : W)
    → (m n : Shared) × (turn queue accumulate i p (on_initialize, w)
        ≡ some ((true, left), (m, queue (location left left) p w)))
      × (turn queue accumulate j q (m, queue (location left left) p w)
          ≡ some
              ((true, right), (n, queue (location right left) q (queue (location left left) p w))))
      × (on_produce k
            (queued queue)
            r
            (n, queue (location right left) q (queue (location left left) p w))
          ≡ none)
unfolding on_produce change_space get_message_entry enter_space on_try_consumer_entry
    try_consumer_entry accumulate_message on_start_consume
third_message-hangs queue false i j k p q r w = (_, _, refl, refl, refl)
third_message-hangs queue true i j k p q r w = (_, _, refl, refl, refl)
