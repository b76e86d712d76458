-- ===== src/Store/Hand.antt =====
-- How `onRetrieveMessage` of Agent/src/c/MessageStore.c hands a group out, once it has chosen it.
use jvmheap_scan.Base.{
  ℕ, ◌+◌, ◌≡◌, ◌≢◌, refl, Bool, true, Option, none, some, List, [], ◌∷◌, arith, leb, length, update,
}
use jvmheap_scan.Store.Memory.{Ptr, MsgGroup, Store, ok}
use jvmheap_scan.Store.Seg.{Cells, Nodes, Groups}
use jvmheap_scan.Store.Merge.{Holds, IsSized, Without, join, merge_msg_as_string-join}
use jvmheap_scan.Store.Rules.{load_group-ok, free_group-ok}
use jvmheap_scan.Store.{hand_out, Retrieved}

-- The text of some messages with its size, if there is a message.
abbrev pub text_of : List ℕ → Cells → Option (List ℕ × ℕ)
text_of sep [] = none
text_of sep (c ∷ cs) = some (join sep (c ∷ cs), length (join sep (c ∷ cs)) + 1)

-- The messages of a group, handed out.
abbrev pub handed : List ℕ → Bool → Cells → Retrieved
handed sep pending zs = record { pending = pending; total_msg = length zs; text = text_of sep zs }

-- A group with a message is handed out as one text: its messages are freed, and it is too.
pub hand_out-frees :
    (sep : List ℕ) (pending : Bool) (s : Store) (p : Ptr) (g : MsgGroup) (zs : Cells)
    → s.groups p ≡ some g
    → zs ≢ []
    → Holds s.nodes g zs
    → IsSized zs
    → (rest : Nodes) × (hand_out sep pending p s
        ≡ ok (handed sep pending zs) (record s { nodes = rest; groups = update s.groups p none }))
      × Without zs s.nodes rest
unfolding hand_out
hand_out-frees sep pending s p g [] at full holds sized = absurd (full refl)
hand_out-frees sep pending s p g (c ∷ cs) at full holds sized =
    let (rest, text, gone) = merge_msg_as_string-join sep g s (c ∷ cs) full holds sized in
    (
      rest,
      rw (
        load_group-ok s p at,
        some_messages,
        text,
        free_group-ok (record s { nodes = rest }) p {g = g} at,
        holds.count,
      ),
      gone,
    )
  where
    some_messages : leb 1 g.total_msgs ≡ true
    some_messages = let e = holds.count in ground arith

-- Any group is handed out as one text, and all other groups stay.
pub hand_out-text :
    (sep : List ℕ) (pending : Bool) (s : Store) (p : Ptr) (g : MsgGroup) (zs : Cells)
    → s.groups p ≡ some g
    → Holds s.nodes g zs
    → IsSized zs
    → (rest : Nodes) × (gs : Groups) × (hand_out sep pending p s
        ≡ ok (handed sep pending zs) (record s { nodes = rest; groups = gs }))
      × Without zs s.nodes rest
      × ((q : Ptr) → q ≢ p → gs q ≡ s.groups q)
unfolding hand_out
hand_out-text sep pending s p g [] at holds sized =
    (s.nodes, s.groups, rw (load_group-ok s p at, holds.count), λ a. refl, λ q ne. refl)
hand_out-text sep pending s p g (c ∷ cs) at holds sized =
    let (rest, run, gone) = hand_out-frees sep pending s p g (c ∷ cs) at (λ e. cc) holds sized in
    (rest, update s.groups p none, run, gone, λ q ne. ground arith)
