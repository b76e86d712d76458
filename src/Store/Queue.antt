-- ===== src/Store/Queue.antt =====
-- `onQueueMessage` of Agent/src/c/MessageStore.c: a message goes behind the last one of its group.
use jvmheap_scan.Base.{
  ℕ, suc, ◌+◌, ◌<◌, ◌≡◌, ◌≢◌, refl, sym, ap, ◌∙◌, true, false, ◌&&◌, some, [], ◌∷◌, ◌++◌, arith,
  leb, length, length-append, update,
}
use jvmheap_scan.Store.Memory.{
  Ptr, null, MsgGroup, HolderId, left_space_left_entry, holder_of, with_holder, Store, ok,
}
use jvmheap_scan.Store.Seg.{
  Item, node, Cells, Nodes, SameOutside, has, has-last_addr, Seg-Head, link, nil, cons, last_addr,
}
use jvmheap_scan.Store.Merge.{IsGroup, total_size}
use jvmheap_scan.Store.Rules.{load_node-ok, load_group-ok, set_next_node-ok}
use jvmheap_scan.Store.{
  create_msg_node, initialize_msg_grp, start_next_group, append_to_group, get_msg_group_holder,
  queue_in, on_queue_message, empty_size,
}

pub total_size-append : (xs ys : Cells) → total_size (xs ++ ys) ≡ total_size xs + total_size ys
total_size-append [] ys = omega arith
total_size-append ((p, m) ∷ xs) ys = omega (arith, total_size-append xs ys)

pub last_addr-append : (p q : Ptr) (m : Item) (xs : Cells) → last_addr p (xs ++ (q, m) ∷ []) ≡ q
last_addr-append p q m [] = refl
last_addr-append p q m ((r, n) ∷ xs) = last_addr-append r q m xs

-- The node at `p` has joined the group at `gp`, which held `xs`.
pub record Appended (s t : Store) (gp : Ptr) (g : MsgGroup) (f : Item) (xs : Cells) (p : Ptr)
    (m : Item) : Type 0 where
  pub left : Nodes
  pub grp : MsgGroup
  pub result : t ≡ record s { nodes = left; groups = update s.groups gp (some grp) }
  pub is : IsGroup left grp (xs ++ (p, m) ∷ [])
  pub first : grp.first_node ≡ g.first_node
  pub next : grp.next_grp ≡ g.next_grp
  pub same : SameOutside ((g.first_node, f) ∷ xs) s.nodes left

module _ (s : Store) (gp : Ptr) (g : MsgGroup) (xs : Cells) (p : Ptr) (m : Item) where
  -- A node that is not yet in the group goes behind the group's messages, the counters follow,
  -- and no node outside of the group changes.
  append_to_group-append :
      s.groups gp ≡ some g
      → (is : IsGroup s.nodes g xs) → s.nodes p ≡ some (node m null)
      → p ≢ null
      → has p ((g.first_node, is.sentinel) ∷ xs) ≡ false
      → (t : Store) × (append_to_group gp p s ≡ ok tt t) × Appended s t gp g is.sentinel xs p m
  unfolding append_to_group
  append_to_group-append at is here ne new =
      let c = is.chain in
      let (n, old, chain) =
        link g.first_node c.next p is.sentinel xs ((p, m) ∷ []) c.here c.ne c.out c.rest
          (cons here ne refl nil) apart in
      let left : Nodes =
        update s.nodes (last_addr g.first_node xs) (some (record n { next_node = p })) in
      let grp : MsgGroup = record g {
        last_node = p;
        total_msg_size = g.total_msg_size + m.size;
        total_msgs = g.total_msgs + 1;
      } in
      (
        record s { nodes = left; groups = update s.groups gp (some grp) },
        rw (
          load_group-ok s gp at,
          load_node-ok s p here,
          is.last,
          set_next_node-ok s (last_addr g.first_node xs) old p,
        ),
        record {
          left = left;
          grp = grp;
          result = refl;
          is = record {
            holds = record {
              sentinel = is.sentinel;
              chain = (Seg-Head chain).1;
              count = omega (arith, length-append xs ((p, m) ∷ []));
              size = omega (arith, total_size-append xs ((p, m) ∷ []));
            };
            last = sym (last_addr-append g.first_node p m xs);
          };
          first = refl;
          next = refl;
          same = λ a o. ground (arith, has-last_addr g.first_node is.sentinel xs);
        },
      )
    where
      apart :
          (a : Ptr) → has a ((g.first_node, is.sentinel) ∷ xs) ≡ true → has a ((p, m) ∷ []) ≡ false
      apart a i = ground arith

-- The current group of a holder, with its messages.
pub record Current (s : Store) (i : HolderId) (xs : Cells) : Type 0 where
  pub grp : MsgGroup
  pub at : s.groups (holder_of i s).cur_msg_grp ≡ some grp
  pub is : IsGroup s.nodes grp xs

-- The holder goes on in a new group at the address that `malloc` returned, with the one node `p`.
-- The group that was full is linked to it, and no node that was there before is changed.
pub record NewGroup (s t : Store) (i : HolderId) (grp : MsgGroup) (p : Ptr) (m : Item)
    : Type 0 where
  pub current : Current t i ((p, m) ∷ [])
  pub holder : holder_of i t ≡ record (holder_of i s) { cur_msg_grp = s.fresh }
  pub linked : t.groups (holder_of i s).cur_msg_grp ≡ some (record grp { next_grp = s.fresh })
  pub same : (a : Ptr) → a < s.fresh → t.nodes a ≡ s.nodes a

module _ (id : ℕ) (s : Store) (xs : Cells) (p : Ptr) (m : Item) where
  abbrev target : HolderId
  target = get_msg_group_holder id

  -- With room in the current group, or no limit set, a new message goes behind that group's messages,
  -- and its size and number are counted.
  pub on_queue_message-append :
      (c : Current s target xs)
      → (s.is_to_be_split && leb s.split_sz (length xs)) ≡ false
      → s.nodes p ≡ some (node m null)
      → p ≢ null
      → has p ((c.grp.first_node, c.is.sentinel) ∷ xs) ≡ false
      → (t : Store) × (on_queue_message id p s ≡ ok tt t)
        × Appended s t (holder_of target s).cur_msg_grp c.grp c.is.sentinel xs p m
  unfolding on_queue_message queue_in
  on_queue_message-append c room here ne new =
      rw (load_group-ok s _ c.at, room')
        (append_to_group-append s (holder_of target s).cur_msg_grp c.grp xs p m c.at c.is here ne
          new)
    where
      room' : (s.is_to_be_split && leb s.split_sz c.grp.total_msgs) ≡ false
      room' = rw c.is.count room

  -- What `start_next_group` leaves: an empty group at `fresh`, linked behind the current one.
  abbrev new_group : MsgGroup
  new_group = record {
    total_msg_size = empty_size;
    total_msgs = 0;
    first_node = suc s.fresh;
    last_node = suc s.fresh;
    next_grp = null;
  }

  abbrev started : HolderId → MsgGroup → Store
  started i grp =
      let h = holder_of i s in
      with_holder i (record h { cur_msg_grp = s.fresh })
        (record s {
          nodes =
              update s.nodes (suc s.fresh)
                (some (node (record { size = empty_size; text = [] }) null));
          groups =
              update (update s.groups s.fresh (some new_group)) h.cur_msg_grp
                (some (record grp { next_grp = s.fresh }));
          fresh = suc (suc s.fresh);
        })

  new_group-IsGroup : (i : HolderId) (grp : MsgGroup) → IsGroup (started i grp).nodes new_group []
  new_group-IsGroup i grp = record {
    holds = record {
      sentinel = record { size = empty_size; text = [] };
      chain = record { next = null; here = ground arith; ne = omega arith; out = refl; rest = nil };
      count = refl;
      size = omega arith;
    };
    last = refl;
  }

  started-holder :
      (i : HolderId) (grp : MsgGroup)
      → holder_of i (started i grp) ≡ record (holder_of i s) { cur_msg_grp = s.fresh }
  started-holder left_space_left_entry grp = refl
  started-holder _ grp = refl

  Appended-NewGroup :
      (i : HolderId) (grp : MsgGroup) (t : Store) (f : Item)
      → Appended (started i grp) t s.fresh new_group f [] p m
      → p < s.fresh
      → (holder_of i s).cur_msg_grp < s.fresh
      → NewGroup s t i grp p m
  Appended-NewGroup i grp t f a old below = record {
    current = record {
      grp = a.grp;
      at = rw (holder, groups) (ground arith);
      is = rw (ap (λ (u : Store). u.nodes) a.result) a.is;
    };
    holder = holder;
    linked = rw groups (ground arith);
    same = λ b h. rw (ap (λ (u : Store). u.nodes) a.result) (ground (arith, a.same b));
  }
    where
      groups : t.groups ≡ update (started i grp).groups s.fresh (some a.grp)
      groups = ap (λ (u : Store). u.groups) a.result

      holder : holder_of i t ≡ record (holder_of i s) { cur_msg_grp = s.fresh }
      holder = ap (holder_of i) a.result ∙ started-holder i grp

  queue_in-NewGroup :
      (i : HolderId) (c : Current s i xs)
      → (s.is_to_be_split && leb s.split_sz (length xs)) ≡ true
      → s.nodes p ≡ some (node m null)
      → p ≢ null
      → p < s.fresh
      → (holder_of i s).cur_msg_grp < s.fresh
      → (t : Store) × (queue_in i p s ≡ ok tt t) × NewGroup s t i c.grp p m
  unfolding queue_in start_next_group initialize_msg_grp create_msg_node
  queue_in-NewGroup i c full here ne old below =
      let (t, run, a) =
        append_to_group-append (started i c.grp) s.fresh new_group [] p m (ground arith)
          (new_group-IsGroup i c.grp) (ground arith) ne (ground arith) in
      (t, rw (load_group-ok s _ c.at, full') run, Appended-NewGroup i c.grp t _ a old below)
    where
      full' : (s.is_to_be_split && leb s.split_sz c.grp.total_msgs) ≡ true
      full' = rw c.is.count full

  -- With a limit set and reached by the current group, a new message opens a group of its own behind
  -- it, which becomes the current one.
  pub on_queue_message-NewGroup :
      (c : Current s target xs)
      → (s.is_to_be_split && leb s.split_sz (length xs)) ≡ true
      → s.nodes p ≡ some (node m null)
      → p ≢ null
      → p < s.fresh
      → (holder_of target s).cur_msg_grp < s.fresh
      → (t : Store) × (on_queue_message id p s ≡ ok tt t) × NewGroup s t target c.grp p m
  unfolding on_queue_message
  on_queue_message-NewGroup = queue_in-NewGroup target
