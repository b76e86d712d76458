-- ===== src/Store/Represents.antt =====
-- The message store of Agent/src/c/MessageStore.c as four queues, and steps that leave them alone.
use jvmheap_scan.Base.{ℕ, ◌≡◌, ◌∙◌, ltb}
use jvmheap_scan.Store.Memory.{Ptr, HolderId, Store}
use jvmheap_scan.Store.Seg.{Cells}
use jvmheap_scan.Store.Merge.{IsSized}
use jvmheap_scan.Store.Contents.{IsStore, IsFree}
use jvmheap_scan.Store.Untouched.{
  Untouched, Leaves, Untouched-Leaves, IsStore-Leaves, IsFree-Leaves,
}
use jvmheap_scan.Store.Requests.{Queues}
use jvmheap_scan.Store.Items.{items}

-- A store whose holders contain these queues.
pub record Represents (limit : ℕ) (s : Store) (q : Queues) : Type 0 where
  pub contents : HolderId → Cells
  pub is : IsStore s contents
  pub same : (i : HolderId) → items (contents i) ≡ q i
  pub sized : (i : HolderId) → IsSized (contents i)
  pub splits : s.is_to_be_split ≡ ltb 0 limit
  pub at_most : s.split_sz ≡ limit

pub Represents-same :
    {limit : ℕ} {s : Store} {q p : Queues}
    → ((i : HolderId) → q i ≡ p i)
    → Represents limit s q
    → Represents limit s p
Represents-same e r = record {
  contents = r.contents;
  is = r.is;
  same = λ i. r.same i ∙ e i;
  sized = r.sized;
  splits = r.splits;
  at_most = r.at_most;
}

-- The queues of a store that a step leaves alone are those that they were, and get no node.
pub Represents-Leaves :
    {limit : ℕ} {s t : Store} {q : Queues} (r : Represents limit s q)
    → Leaves r.is t
    → (k : Represents limit t q) × ((a : Ptr) → IsFree r.is a → IsFree k.is a)
Represents-Leaves r u = (
  record {
    contents = r.contents;
    is = IsStore-Leaves r.is u;
    same = r.same;
    sized = r.sized;
    splits = u.splits ∙ r.splits;
    at_most = u.at_most ∙ r.at_most;
  },
  IsFree-Leaves r.is u,
)

pub Represents-Untouched :
    {limit : ℕ} {s t : Store} {q : Queues}
    → Untouched s t
    → Represents limit s q
    → Represents limit t q
Represents-Untouched u r = (Represents-Leaves r (Untouched-Leaves u r.is)).0
