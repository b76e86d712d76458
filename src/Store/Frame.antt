-- ===== src/Store/Frame.antt =====
-- What calls of Agent/src/c/MessageStore.c for the holders do not touch: the group `curMsgGrp`, which is
-- collected apart from them.
use mathlib.Core.Path.{subst}
use jvmheap_scan.Base.{
  ℕ, zero, suc, ◌+◌, ◌%◌, ◌&&◌, update, ◌≡◌, sym, ◌∙◌, Bool, true, false, Option, none, some, List,
  [], leb, ◌==◌, if◌then◌else◌, length,
}
use jvmheap_scan.Store.Memory.{
  Ptr, null, MsgNode, MsgGroup, HolderId, Store, Run, ok, fault, out_of_fuel, Cmd, and_then,
  load_node, load_group, set_next_node, free_group,
}
use jvmheap_scan.Store.{
  free_msg_node, create_msg_node, initialize_msg_grp, on_initialize_msg_group_holder, merge_entries,
  get_msg_group_holder_in_space, print_into, merge_loop, merge_msg_as_string, append_to_group,
  start_next_group, queue_in, on_queue_message, merge_grp, split_loop, on_get_msg_split, hand_out,
  on_retrieve_message,
}

-- What holds where a call returns.
abbrev pub Ending : {A : Type 0} → (A → Store → Type 0) → Run A → Type 0
Ending P (ok a t) = P a t
Ending P _ = Unit

-- A call has one result.
pub same_result :
    {A : Type 0} (P : A → Store → Type 0) {r : Run A} {a b : A} {t u : Store}
    → r ≡ ok a t
    → r ≡ ok b u
    → P a t
    → P b u
same_result P h h' x = subst (Ending P) (sym h ∙ h') x

-- If the call returns, this is the group that is collected.
pub record Keeps {A : Type 0} (g : MsgGroup) (r : Run A) : Type 0 where
  pub still : Ending (λ _ t. t.cur_msg_grp ≡ g) r

module _ {g : MsgGroup} where
  kept : {A : Type 0} {a : A} {t : Store} → t.cur_msg_grp ≡ g → Keeps g (ok a t)
  kept h = record { still = h }

  faults : {A : Type 0} → Keeps {A = A} g fault
  faults = record { still = tt }

  then_Keeps :
      {A B : Type 0} {r : Run A} {k : A → Cmd B}
      → Keeps g r
      → ((a : A) (t : Store) → t.cur_msg_grp ≡ g → Keeps g (k a t))
      → Keeps g (and_then r k)
  then_Keeps {r = ok a t} h n = n a t h.still
  then_Keeps {r = fault} h n = record { still = tt }
  then_Keeps {r = out_of_fuel} h n = record { still = tt }

  if_Keeps :
      {A : Type 0} (b : Bool) (x y : Cmd A) {s : Store}
      → Keeps g (x s)
      → Keeps g (y s)
      → Keeps g ((if b then x else y) s)
  if_Keeps true x y h h' = h
  if_Keeps false x y h h' = h'

  load_node-Keeps : (p : Ptr) (s : Store) → s.cur_msg_grp ≡ g → Keeps g (load_node p s)
  unfolding load_node
  load_node-Keeps p s h = cases (s.nodes p)
    where
      cases : (v : Option MsgNode) → Keeps g (elim v [ none ↦ fault | some n ↦ ok n s ])
      cases none = faults
      cases (some n) = kept h

  load_group-Keeps : (p : Ptr) (s : Store) → s.cur_msg_grp ≡ g → Keeps g (load_group p s)
  unfolding load_group
  load_group-Keeps p s h = cases (s.groups p)
    where
      cases : (v : Option MsgGroup) → Keeps g (elim v [ none ↦ fault | some n ↦ ok n s ])
      cases none = faults
      cases (some n) = kept h

  set_next_node-Keeps : (p q : Ptr) (s : Store) → s.cur_msg_grp ≡ g → Keeps g (set_next_node p q s)
  unfolding set_next_node
  set_next_node-Keeps p q s h = then_Keeps (load_node-Keeps p s h) (λ n t h. kept h)

  free_group-Keeps : (p : Ptr) (s : Store) → s.cur_msg_grp ≡ g → Keeps g (free_group p s)
  unfolding free_group
  free_group-Keeps p s h = then_Keeps (load_group-Keeps p s h) (λ n t h. kept h)

  free_msg_node-Keeps : (p : Ptr) (s : Store) → s.cur_msg_grp ≡ g → Keeps g (free_msg_node p s)
  unfolding free_msg_node
  free_msg_node-Keeps p s h = then_Keeps (load_node-Keeps p s h) (λ n t h. kept h)

  on_initialize_msg_group_holder-Keeps :
      (i : HolderId) (s : Store) → s.cur_msg_grp ≡ g → Keeps g (on_initialize_msg_group_holder i s)
  unfolding on_initialize_msg_group_holder initialize_msg_grp create_msg_node
  on_initialize_msg_group_holder-Keeps i s h = kept h

  get_msg_group_holder_in_space-Keeps :
      (id : ℕ) (s : Store) → s.cur_msg_grp ≡ g → Keeps g (get_msg_group_holder_in_space id s)
  unfolding get_msg_group_holder_in_space merge_entries on_initialize_msg_group_holder
      initialize_msg_grp create_msg_node
  get_msg_group_holder_in_space-Keeps id s h = if_Keeps (id % 2 == 1) _ _ (kept h) (kept h)

  print_into-Keeps :
      (room : ℕ) (out piece : List ℕ) (s : Store)
      → s.cur_msg_grp ≡ g
      → Keeps g (print_into room out piece s)
  unfolding print_into
  print_into-Keeps room out piece s h =
      if_Keeps (leb (length out + length piece + 1) room) _ _ (kept h) faults

  merge_loop-Keeps :
      (sep : List ℕ) (room k : ℕ) (p : Ptr) (out : List ℕ) (s : Store)
      → s.cur_msg_grp ≡ g
      → Keeps g (merge_loop sep room k p out s)
  unfolding merge_loop
  merge_loop-Keeps sep room zero p out s h = record { still = tt }
  merge_loop-Keeps sep room (suc k) p out s h = if_Keeps (p == null) _ _ (kept h) (
      then_Keeps (load_node-Keeps p s h) (λ n t h.
        then_Keeps (print_into-Keeps room out _ t h) (λ o t h.
          then_Keeps (free_msg_node-Keeps p t h)
            (λ _ t h. merge_loop-Keeps sep room k n.next_node o t h))))

  merge_msg_as_string-Keeps :
      (sep : List ℕ) (grp : MsgGroup) (s : Store)
      → s.cur_msg_grp ≡ g
      → Keeps g (merge_msg_as_string sep grp s)
  unfolding merge_msg_as_string
  merge_msg_as_string-Keeps sep grp s h =
      then_Keeps (load_node-Keeps grp.first_node s h) (λ first t h.
        if_Keeps (first.next_node == null) _ _ faults (
          then_Keeps (load_node-Keeps first.next_node t h) (λ n t h.
            then_Keeps (print_into-Keeps _ [] n.msg t h) (λ o t h.
              then_Keeps (free_msg_node-Keeps first.next_node t h) (λ _ t h.
                then_Keeps (merge_loop-Keeps sep _ _ n.next_node o t h) (λ _ t h. kept h))))))

  merge_grp-Keeps : (p q : Ptr) (s : Store) → s.cur_msg_grp ≡ g → Keeps g (merge_grp p q s)
  unfolding merge_grp
  merge_grp-Keeps p q s h = then_Keeps (load_group-Keeps p s h) (λ g1 t h.
      then_Keeps (load_group-Keeps q t h) (λ g2 t h.
        let grown : MsgGroup = record g1 {
          total_msgs = g1.total_msgs + g2.total_msgs;
          total_msg_size = g1.total_msg_size + g2.total_msg_size;
        } in
        let u : Store = record t { groups = update t.groups p (some grown) } in
        then_Keeps (load_node-Keeps g2.first_node u h) (λ first t h.
          then_Keeps (set_next_node-Keeps g1.last_node first.next_node t h)
            (λ _ t h. free_group-Keeps q t h))))

  split_loop-Keeps :
      (i : HolderId) (cur : Ptr) (k tot : ℕ) (next : Ptr) (s : Store)
      → s.cur_msg_grp ≡ g
      → Keeps g (split_loop i cur k tot next s)
  unfolding split_loop
  split_loop-Keeps i cur zero tot next s h = record { still = tt }
  split_loop-Keeps i cur (suc k) tot next s h = if_Keeps (next == null) _ _ (kept h) (
      then_Keeps (load_group-Keeps next s h) (λ n t h.
        if_Keeps (leb (tot + n.total_msgs) t.split_sz) _ _
          (then_Keeps (merge_grp-Keeps cur next t h) (λ _ t h.
            then_Keeps (load_group-Keeps cur t h)
              (λ c t h. split_loop-Keeps i cur k (tot + n.total_msgs) c.next_grp t h)))
          (kept h)))

  on_get_msg_split-Keeps :
      (i : HolderId) (s : Store) → s.cur_msg_grp ≡ g → Keeps g (on_get_msg_split i s)
  unfolding on_get_msg_split
  on_get_msg_split-Keeps i s h =
      then_Keeps (load_group-Keeps _ s h)
        (λ c t h. then_Keeps (split_loop-Keeps i _ 3 c.total_msgs _ t h) (λ _ t h. kept h))

  hand_out-Keeps :
      (sep : List ℕ) (pending : Bool) (p : Ptr) (s : Store)
      → s.cur_msg_grp ≡ g
      → Keeps g (hand_out sep pending p s)
  unfolding hand_out
  hand_out-Keeps sep pending p s h = then_Keeps (load_group-Keeps p s h) (λ grp t h.
      if_Keeps (leb 1 grp.total_msgs) _ _
        (then_Keeps (merge_msg_as_string-Keeps sep grp t h)
          (λ m t h. then_Keeps (free_group-Keeps p t h) (λ _ t h. kept h)))
        (kept h))

  pub on_retrieve_message-Keeps :
      (sep : List ℕ) (id : ℕ) (s : Store)
      → s.cur_msg_grp ≡ g
      → Keeps g (on_retrieve_message sep id s)
  unfolding on_retrieve_message
  on_retrieve_message-Keeps sep id s h =
      then_Keeps (get_msg_group_holder_in_space-Keeps id s h) (λ i t h.
        then_Keeps (on_get_msg_split-Keeps i t h) (λ b t h.
          then_Keeps (if_Keeps b.0 _ _ (kept h) (on_initialize_msg_group_holder-Keeps i t h))
            (λ _ t h. hand_out-Keeps sep b.0 b.1 t h)))

  append_to_group-Keeps :
      (p q : Ptr) (s : Store) → s.cur_msg_grp ≡ g → Keeps g (append_to_group p q s)
  unfolding append_to_group
  append_to_group-Keeps p q s h = then_Keeps (load_group-Keeps p s h) (λ grp t h.
      then_Keeps (load_node-Keeps q t h)
        (λ n t h. then_Keeps (set_next_node-Keeps grp.last_node q t h) (λ _ t h. kept h)))

  start_next_group-Keeps :
      (i : HolderId) (c : Ptr) (grp : MsgGroup) (s : Store)
      → s.cur_msg_grp ≡ g
      → Keeps g (start_next_group i c grp s)
  unfolding start_next_group initialize_msg_grp create_msg_node
  start_next_group-Keeps i c grp s h = kept h

  pub on_queue_message-Keeps :
      (id : ℕ) (p : Ptr) (s : Store) → s.cur_msg_grp ≡ g → Keeps g (on_queue_message id p s)
  unfolding on_queue_message queue_in
  on_queue_message-Keeps id p s h = then_Keeps (load_group-Keeps _ s h) (λ grp t h.
      if_Keeps (t.is_to_be_split && leb t.split_sz grp.total_msgs) _ _
        (then_Keeps (start_next_group-Keeps _ _ grp t h) (λ c t h. append_to_group-Keeps c p t h))
        (append_to_group-Keeps _ p t h))

-- So it is where the call does return.
pub stays :
    {A : Type 0} {g : MsgGroup} {r : Run A} {a : A} {t : Store}
    → Keeps g r
    → r ≡ ok a t
    → t.cur_msg_grp ≡ g
stays {g = g} k e = subst (Ending (λ _ t. t.cur_msg_grp ≡ g)) e k.still
