-- ===== src/Sync/Entry.antt =====
-- The entries of Agent/src/c/ThreadSync_PriorityProducer.c and the holders of
-- Agent/src/c/MessageStore.c that their location ids name.
use jvmheap_scan.Base.{ℕ, ◌+◌, ◌≡◌, refl, sym, ◌∙◌, arith}
use jvmheap_scan.Store.Memory.{
  HolderId, left_space_left_entry, left_space_right_entry, right_space_left_entry,
  right_space_right_entry,
}
use jvmheap_scan.Store.{get_msg_group_holder}
use jvmheap_scan.Sync.{Side, left, right, space_id, entry_id}
use jvmheap_scan.Sync.System.{System, storing, Reach}
use jvmheap_scan.Sync.Exclusion.{exclusive_storing}

-- `localSpace.id + entry.id`
abbrev pub location : Side → Side → ℕ
location s e = space_id s + entry_id e

-- The holder that is meant for an entry of a space.
abbrev pub holder_for : Side → Side → HolderId
holder_for left left = left_space_left_entry
holder_for left right = left_space_right_entry
holder_for right left = right_space_left_entry
holder_for right right = right_space_right_entry

-- The two bits that `getMsgGroupHolder` tests lead to the holder of the space and of the entry.
location-holder_for : (s e : Side) → get_msg_group_holder (location s e) ≡ holder_for s e
unfolding get_msg_group_holder
location-holder_for left left = refl
location-holder_for left right = refl
location-holder_for right left = refl
location-holder_for right right = refl

-- Only one space and entry have a given holder.
location-injective :
    (s e s' e' : Side)
    → get_msg_group_holder (location s e) ≡ get_msg_group_holder (location s' e')
    → (s ≡ s') × (e ≡ e')
location-injective s e s' e' h =
    by_holder s e s' e' (sym (location-holder_for s e) ∙ h ∙ location-holder_for s' e')
  where
    by_holder : (s e s' e' : Side) → holder_for s e ≡ holder_for s' e' → (s ≡ s') × (e ≡ e')
    by_holder s e s' e' h = (ground arith, ground arith)

-- In every reachable state two producers whose location ids name one holder are the same: no holder
-- is written by two of them at a time.
pub exclusive_holder :
    {z : System} (s e s' e' : Side) (i k : ℕ)
    → Reach z
    → z.pc i ≡ storing s e
    → z.pc k ≡ storing s' e'
    → get_msg_group_holder (location s e) ≡ get_msg_group_holder (location s' e')
    → i ≡ k
exclusive_holder s e s' e' i k r hi hk same =
    let (es, ee) = location-injective s e s' e' same in
    exclusive_storing s e i k r hi (rw (es, ee) hk)
