-- ===== src/Store.antt =====
-- Agent/src/c/MessageStore.c, a function for each function of the file.
pub mod Memory
pub mod Loss
pub mod Collect
pub mod Contents
pub mod Examples
pub mod Final
pub mod Fuel
pub mod Space
pub mod Sides
pub mod Split
pub mod Refinement
pub mod Represents
pub mod Answers
pub mod Requests
pub mod Replaced
pub mod Retrieve
pub mod Group
pub mod Hand
pub mod Part
pub mod Queue
pub mod Rules
pub mod Runs
pub mod Initial
pub mod Merge
pub mod Seg
pub mod Tests
pub mod Untouched
pub mod Collected
pub mod Queued
pub mod Frame
pub mod Reads
pub mod Items
pub mod Grouped
use jvmheap_scan.Base.{
  ℕ, zero, suc, ◌+◌, ◌*◌, ◌/◌, ◌%◌, Bool, true, false, Option, none, some, List, [], ◌++◌, ◌&&◌,
  ltb, leb, ◌==◌, if◌then◌else◌, length,
}
use jvmheap_scan.Store.Memory.{
  Ptr, null, MsgNode, MsgGroup, MsgGroupHolder, HolderId, left_space_left_entry,
  left_space_right_entry, right_space_left_entry, right_space_right_entry, Store, Run, ok, fault,
  out_of_fuel, Cmd, pure, and_then, ◌>>=◌, ◌>>◌, fail, get, malloc, put_node, put_group, load_node,
  load_group, set_next_node, free_group, holder_of, with_holder, load_holder, put_holder,
}

-- `free(msgNode->msg); free(msgNode);`
unfoldable pub free_msg_node : Ptr → Cmd (Unit {0})
unfolding load_node
free_msg_node p = load_node p >> put_node p none

unfoldable pub create_msg_node : List ℕ → ℕ → Cmd Ptr
create_msg_node msg size = do
  p ← malloc
  put_node p (some (record { msg_size = size; msg = msg; next_node = null }))
  pure p

-- `sizeof("\0")`
abbrev pub empty_size : ℕ
empty_size = 2

-- The group that `initializeMsgGrp` leaves in the memory that it is given.
unfoldable pub initialize_msg_grp : Cmd MsgGroup
unfolding create_msg_node
initialize_msg_grp = do
  p ← create_msg_node [] empty_size
  pure (record {
    total_msg_size = empty_size;
    total_msgs = 0;
    first_node = p;
    last_node = p;
    next_grp = null;
  })

unfoldable pub on_start_msg_grp : Cmd (Unit {0})
unfolding initialize_msg_grp
on_start_msg_grp = do g ← initialize_msg_grp; λ s. ok tt (record s { cur_msg_grp = g })

unfoldable pub on_initialize_msg_group_holder : HolderId → Cmd (Unit {0})
unfolding initialize_msg_grp
on_initialize_msg_group_holder i = do
  p ← malloc
  g ← initialize_msg_grp
  put_group p (some g)
  put_holder i (record { start_grp = p; cur_msg_grp = p; next_grp = null })

-- `id & 1` is the last bit, `id & 2` the one before it.
unfoldable pub get_msg_group_holder : ℕ → HolderId
get_msg_group_holder id =
    if id % 2 == 1
    then (if id / 2 % 2 == 1 then right_space_left_entry else right_space_right_entry)
    else if id / 2 % 2 == 1
    then left_space_left_entry
    else left_space_right_entry

unfoldable pub merge_entries : HolderId → HolderId → Cmd (Unit {0})
unfolding on_initialize_msg_group_holder
merge_entries left right = do
  l ← load_holder left
  r ← load_holder right
  put_holder left (record l { next_grp = r.start_grp; cur_msg_grp = r.cur_msg_grp })
  on_initialize_msg_group_holder right

unfoldable pub get_msg_group_holder_in_space : ℕ → Cmd HolderId
unfolding merge_entries
get_msg_group_holder_in_space id =
    if id % 2 == 1
    then merge_entries right_space_left_entry right_space_right_entry >> pure right_space_left_entry
    else merge_entries left_space_left_entry left_space_right_entry >> pure left_space_left_entry

-- `sprintf_s` at the end of what is written: a fault if text and NUL do not fit `room` bytes.
unfoldable pub print_into : ℕ → List ℕ → List ℕ → Cmd (List ℕ)
print_into room out piece =
    if leb (length out + length piece + 1) room then pure (out ++ piece) else fail

-- The `while` of `mergeMsgAsString`.
unfoldable pub merge_loop : List ℕ → ℕ → ℕ → Ptr → List ℕ → Cmd (List ℕ)
merge_loop sep room zero p out = λ _. out_of_fuel
merge_loop sep room (suc k) p out = if p == null then pure out else do
  n ← load_node p
  out' ← print_into room out (sep ++ n.msg)
  free_msg_node p
  merge_loop sep room k n.next_node out'

-- The text and its size. With no message in the group `strlen` reads memory never written.
-- A group has at most `totalMsgs` messages, so that many rounds are enough.
unfoldable pub merge_msg_as_string : List ℕ → MsgGroup → Cmd (List ℕ × ℕ)
unfolding merge_loop print_into free_msg_node load_node
merge_msg_as_string sep g = do
  first ← load_node g.first_node
  let room = g.total_msg_size + g.total_msgs * ((length sep + 1) * 1)
  if first.next_node == null then fail else do
    n ← load_node first.next_node
    out ← print_into room [] n.msg
    free_msg_node first.next_node
    text ← merge_loop sep room (g.total_msgs + 1) n.next_node out
    pure (text, (length text + 1) * 1)

-- `produce` is `syncInterface.onProduce`, `sep` what `opInterface.getMsgSeperator` returns.
module _ (produce : Ptr → Cmd (Unit {0})) where
  unfoldable pub on_flush_msg : List ℕ → ℕ → Cmd (Unit {0})
  unfolding create_msg_node
  on_flush_msg msg size = create_msg_node msg size >>= produce

  unfoldable pub on_flush_msg_grp : List ℕ → Cmd (Unit {0})
  unfolding on_flush_msg merge_msg_as_string
  on_flush_msg_grp sep = do
    s ← get
    (text, size) ← merge_msg_as_string sep s.cur_msg_grp
    on_flush_msg text size

  unfoldable pub on_include_message : List ℕ → ℕ → Bool → Cmd (Unit {0})
  unfolding on_flush_msg create_msg_node set_next_node
  on_include_message msg size immediate = if immediate then on_flush_msg msg size else do
    p ← create_msg_node msg size
    s ← get
    set_next_node s.cur_msg_grp.last_node p
    λ t. ok tt (record t {
      cur_msg_grp = record s.cur_msg_grp {
        last_node = p;
        total_msg_size = size + s.cur_msg_grp.total_msg_size;
        total_msgs = s.cur_msg_grp.total_msgs + 1;
      };
    })

-- Puts a node behind the last one of the group at `g`.
unfoldable pub append_to_group : Ptr → Ptr → Cmd (Unit {0})
unfolding load_group load_node set_next_node
append_to_group g p = do
  grp ← load_group g
  n ← load_node p
  set_next_node grp.last_node p
  put_group g (
      some (record grp {
        last_node = p;
        total_msg_size = grp.total_msg_size + n.msg_size;
        total_msgs = grp.total_msgs + 1;
      }))

-- A new group behind the one at `c`, which becomes the holder's current group.
unfoldable pub start_next_group : HolderId → Ptr → MsgGroup → Cmd Ptr
unfolding initialize_msg_grp
start_next_group i c grp = do
  p ← malloc
  g ← initialize_msg_grp
  put_group p (some g)
  put_group c (some (record grp { next_grp = p }))
  h ← load_holder i
  put_holder i (record h { cur_msg_grp = p })
  pure p

unfoldable pub queue_in : HolderId → Ptr → Cmd (Unit {0})
unfolding append_to_group start_next_group load_group
queue_in i p = do
  h ← load_holder i
  grp ← load_group h.cur_msg_grp
  s ← get
  if s.is_to_be_split && leb s.split_sz grp.total_msgs
      then (start_next_group i h.cur_msg_grp grp >>= λ g. append_to_group g p)
      else append_to_group h.cur_msg_grp p

-- The node comes from `onFlushMsg`, through the synchronizer.
unfoldable pub on_queue_message : ℕ → Ptr → Cmd (Unit {0})
unfolding queue_in get_msg_group_holder
on_queue_message id p = queue_in (get_msg_group_holder id) p

-- `group1->nextGrp` and `group1->lastNode` stay as they are.
unfoldable pub merge_grp : Ptr → Ptr → Cmd (Unit {0})
unfolding load_group load_node set_next_node free_group
merge_grp group1 group2 = do
  g1 ← load_group group1
  g2 ← load_group group2
  put_group group1 (
      some (record g1 {
        total_msgs = g1.total_msgs + g2.total_msgs;
        total_msg_size = g1.total_msg_size + g2.total_msg_size;
      }))
  first ← load_node g2.first_node
  set_next_node g1.last_node first.next_node
  free_group group2

-- The `while` of `onGetMsgSplit`. From the second round on `next` is the same pointer, which the
-- round before has freed, so three rounds are enough.
unfoldable pub split_loop : HolderId → Ptr → ℕ → ℕ → Ptr → Cmd Bool
unfolding load_group
split_loop i cur zero tot next = λ _. out_of_fuel
split_loop i cur (suc k) tot next = if next == null then pure false else do
  n ← load_group next
  s ← get
  if leb (tot + n.total_msgs) s.split_sz
      then (do
        merge_grp cur next
        c ← load_group cur
        split_loop i cur k (tot + n.total_msgs) c.next_grp)
      else (do
        h ← load_holder i
        put_holder i (record h { start_grp = next; next_grp = n.next_grp })
        pure true)

-- Whether more is pending, and the group to send.
unfoldable pub on_get_msg_split : HolderId → Cmd (Bool × Ptr)
unfolding load_group
on_get_msg_split i = do
  h ← load_holder i
  c ← load_group h.start_grp
  pending ← split_loop i h.start_grp 3 c.total_msgs h.next_grp
  pure (pending, h.start_grp)

-- What `onRetrieveMessage` returns and writes through its pointers. `text` is `none` where
-- `*msg` and `*totalMsgSize` are left alone.
pub record Retrieved : Type 0 where
  pub pending : Bool
  pub total_msg : ℕ
  pub text : Option (List ℕ × ℕ)

-- The end of `onRetrieveMessage`: the group that was chosen becomes a text, if it has a message.
unfoldable pub hand_out : List ℕ → Bool → Ptr → Cmd Retrieved
unfolding load_group free_group
hand_out sep pending p = do
  g ← load_group p
  if leb 1 g.total_msgs
      then (do
        m ← merge_msg_as_string sep g
        free_group p
        pure (record { pending = pending; total_msg = g.total_msgs; text = some m }))
      else pure (record { pending = pending; total_msg = g.total_msgs; text = none })

unfoldable pub on_retrieve_message : List ℕ → ℕ → Cmd Retrieved
on_retrieve_message sep id = do
  i ← get_msg_group_holder_in_space id
  (pending, p) ← on_get_msg_split i
  (if pending then pure tt else on_initialize_msg_group_holder i)
  hand_out sep pending p

-- The store's part of `onInitialize`; `limit` is `socketMsgLimit` where that is positive, else 0.
unfoldable pub on_initialize : ℕ → Cmd (Unit {0})
unfolding on_initialize_msg_group_holder
on_initialize limit = do
  on_initialize_msg_group_holder left_space_left_entry
  on_initialize_msg_group_holder left_space_right_entry
  on_initialize_msg_group_holder right_space_left_entry
  on_initialize_msg_group_holder right_space_right_entry
  λ s. ok tt (if ltb 0 limit then record s { is_to_be_split = true; split_sz = limit } else s)
