-- ===== src/Store/Memory.antt =====
-- The data of Agent/src/c/MessageStore.c, and commands over the memory that holds it.
use jvmheap_scan.Base.{ℕ, suc, Bool, Option, none, some, List, update}

abbrev pub Ptr : Type 0
Ptr = ℕ

abbrev pub null : Ptr
null = 0

-- A message is a C string: the bytes before its NUL. `msg_size` is what the caller said it takes.
pub record MsgNode : Type 0 where
  pub msg_size : ℕ
  pub msg : List ℕ
  pub next_node : Ptr

pub record MsgGroup : Type 0 where
  pub total_msg_size : ℕ
  pub total_msgs : ℕ
  pub first_node : Ptr
  pub last_node : Ptr
  pub next_grp : Ptr

pub record MsgGroupHolder : Type 0 where
  pub start_grp : Ptr
  pub cur_msg_grp : Ptr
  pub next_grp : Ptr

-- The four static holders.
pub data HolderId : Type 0 where
  left_space_left_entry left_space_right_entry : HolderId
  right_space_left_entry right_space_right_entry : HolderId

-- The static variables of the file, and the memory that its pointers lead into. `fresh` is the
-- address that `malloc` returns next.
pub record Store : Type 0 where
  pub nodes : Ptr → Option MsgNode
  pub groups : Ptr → Option MsgGroup
  pub fresh : Ptr
  pub cur_msg_grp : MsgGroup
  pub left_left : MsgGroupHolder
  pub left_right : MsgGroupHolder
  pub right_left : MsgGroupHolder
  pub right_right : MsgGroupHolder
  pub is_to_be_split : Bool
  pub split_sz : ℕ

-- `fault` is undefined behaviour of the C: a dangling or null pointer, memory read before it was
-- written, a buffer that is too small for `sprintf_s`.
pub data Run (A : Type 0) : Type 0 where
  ok : A → Store → Run A
  fault : Run A
  out_of_fuel : Run A

abbrev pub Cmd : Type 0 → Type 0
Cmd A = Store → Run A

abbrev pub pure : {A : Type 0} → A → Cmd A
pure = ok

module _ {A B : Type 0} where
  abbrev pub and_then : Run A → (A → Cmd B) → Run B
  and_then (ok a s) k = k a s
  and_then fault k = fault
  and_then out_of_fuel k = out_of_fuel

  infixl 5 ◌>>=◌ ◌>>◌
  abbrev pub ◌>>=◌ : Cmd A → (A → Cmd B) → Cmd B
  m >>= k = λ s. and_then (m s) k

  abbrev pub ◌>>◌ : Cmd A → Cmd B → Cmd B
  m >> n = m >>= λ _. n

abbrev pub fail : {A : Type 0} → Cmd A
fail = λ _. fault

abbrev pub get : Cmd Store
get s = ok s s

-- `allocateMemory`: `malloc` with memory left. What is allocated is filled by `put_node`, `put_group`.
abbrev pub malloc : Cmd Ptr
malloc s = ok s.fresh (record s { fresh = suc s.fresh })

abbrev pub put_node : Ptr → Option MsgNode → Cmd (Unit {0})
put_node p n s = ok tt (record s { nodes = update s.nodes p n })

abbrev pub put_group : Ptr → Option MsgGroup → Cmd (Unit {0})
put_group p g s = ok tt (record s { groups = update s.groups p g })

-- `*p`, a fault where no node is
unfoldable pub load_node : Ptr → Cmd MsgNode
load_node p s = elim (s.nodes p) [ none ↦ fault | some n ↦ ok n s ]

unfoldable pub load_group : Ptr → Cmd MsgGroup
load_group p s = elim (s.groups p) [ none ↦ fault | some g ↦ ok g s ]

-- `p->nextNode = q`
unfoldable pub set_next_node : Ptr → Ptr → Cmd (Unit {0})
set_next_node p q = do n ← load_node p; put_node p (some (record n { next_node = q }))

unfoldable pub free_group : Ptr → Cmd (Unit {0})
free_group p = load_group p >> put_group p none

abbrev pub holder_of : HolderId → Store → MsgGroupHolder
holder_of i s = elim i [
  | left_space_left_entry ↦ s.left_left
  | left_space_right_entry ↦ s.left_right
  | right_space_left_entry ↦ s.right_left
  | right_space_right_entry ↦ s.right_right
]

abbrev pub with_holder : HolderId → MsgGroupHolder → Store → Store
with_holder i h s = record s {
  left_left = elim i [ left_space_left_entry ↦ h | _ ↦ s.left_left ];
  left_right = elim i [ left_space_right_entry ↦ h | _ ↦ s.left_right ];
  right_left = elim i [ right_space_left_entry ↦ h | _ ↦ s.right_left ];
  right_right = elim i [ right_space_right_entry ↦ h | _ ↦ s.right_right ];
}

abbrev pub load_holder : HolderId → Cmd MsgGroupHolder
load_holder i s = ok (holder_of i s) s

abbrev pub put_holder : HolderId → MsgGroupHolder → Cmd (Unit {0})
put_holder i h s = ok tt (with_holder i h s)
