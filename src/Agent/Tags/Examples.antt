-- ===== src/Agent/Tags/Examples.antt =====
-- The theorems on the tags of Agent/src/c/JVMHeapScan.c with a machine whose objects are numbers.
use native.Mathlib.Decide.{ℕ_discrete}
use jvmheap_scan.Base.{ℕ, ◌≡◌, refl, true, false, none, some, [], ◌∷◌, ◌++◌, arith, update}
use jvmheap_scan.Base.Int.{ℤ, pos, negsuc}
use jvmheap_scan.Agent.Tags.{
  Jvmti, Agent, done, is_zero, set_and_get_tag, get_object_tag, check_and_tag_class,
}
use jvmheap_scan.Agent.Tags.Laws.{Laws, IsUnique, tag_of}
use jvmheap_scan.Agent.Tags.Report.{class_report, object_report, get_object_tag-report}
use jvmheap_scan.Agent.Tags.Classes.{
  Checked, check_and_tag_class-Checked, check_after_track-duplicate,
}
use jvmheap_scan.Agent.Tags.Heap.{Walker, Walks, visit_all}
use jvmheap_scan.Agent.Tags.Callback.{Kinds, Visit, other}
use jvmheap_scan.Agent.Tags.Race.{TagPc, reading, returned, TagRuns, same_tag}

abbrev pub machine : Jvmti
machine = record {
  Env = ℕ → ℤ;
  Object = ℕ;
  error_none = 0;
  get_tag = λ o e. (0, e o);
  set_tag = λ o t e. (0, update e o t);
  get_class_signature = λ o e. (0, 76 ∷ []);
  get_loaded_classes = λ e. (0, 1 ∷ 2 ∷ []);
  raw_monitor_enter = λ e. (0, e);
  raw_monitor_exit = λ e. (0, e);
}

pub machine-Laws : Laws machine
machine-Laws = record {
  same = ℕ_discrete;
  get_ok = λ o e. refl;
  set_ok = λ o t e. refl;
  sign_ok = λ o e. refl;
  get_set = λ o t e. ground arith;
  get_set_ne = λ o p t e ne. ground arith;
  sign_set = λ o p t e. refl;
  enter_ok = λ e. refl;
  exit_ok = λ e. refl;
  loaded_ok = λ e. refl;
  sign_enter = λ o e. refl;
}

abbrev pub begun : Agent machine
begun = record { last_tag = 1; env = λ o. pos 0; sent = [] }

begun-IsUnique : IsUnique machine begun
begun-IsUnique = record {
  number = λ o. 0;
  is = λ o. refl;
  bound = λ o. omega arith;
  distinct = λ o p e ne. absurd (ne refl);
}

get_object_tag-report_example :
    (t : Agent machine) × (get_object_tag machine 1 5 true begun ≡ done tt t)
    × IsUnique machine t
    × (is_zero (tag_of machine 1 t) ≡ false)
    × (is_zero (tag_of machine 5 t) ≡ false)
    × (t.sent
        ≡ begun.sent
          ++ (class_report machine machine-Laws 1 true begun t
              ++ object_report machine machine-Laws 1 5 true begun t))
get_object_tag-report_example =
    get_object_tag-report machine machine-Laws 1 5 true begun (omega arith) begun-IsUnique

check_and_tag_class-Checked_example :
    (t : Agent machine) × (check_and_tag_class machine false 1 begun ≡ done tt t)
    × Checked machine machine-Laws 1 false begun t
check_and_tag_class-Checked_example = check_and_tag_class-Checked machine machine-Laws 1 false begun

check_after_track-duplicate_example :
    (t u : Agent machine) × (set_and_get_tag machine 5 begun ≡ done (pos 2, true) t)
    × (check_and_tag_class machine false 1 t ≡ done tt u)
    × (tag_of machine 5 u ≡ pos 2)
    × (tag_of machine 1 u ≡ pos 2)
check_after_track-duplicate_example =
    check_after_track-duplicate machine machine-Laws 5 1 false begun (omega arith) refl refl

-- The kinds of the JVM Tool Interface.
abbrev pub kinds : Kinds
kinds = record { array_element = 3; field = 2; static_field = 8; constant_pool = 9 }

abbrev pub visit : Visit
visit = record {
  kind = 3;
  info = some (pos 0);
  class_tag = pos 4;
  referrer_class_tag = pos 5;
  size = pos 24;
  tag = pos 0;
  referrer = other (pos 0);
  len = negsuc 0;
}

-- A heap with one reference.
abbrev pub walker : Walker machine
walker = record {
  follow_references = λ callbacks s. elim callbacks [
    | none ↦ (0, s)
    | some callback ↦
        let w = visit_all callback s.last_tag (visit ∷ []) in
        (0, record s { last_tag = w.0; sent = s.sent ++ w.1 })
  ];
  force_garbage_collection = λ s. (0, s);
}

abbrev pub walker_walks : Walks machine walker kinds
walker_walks = record {
  visits = λ s. visit ∷ [];
  walks = λ s. refl;
  tags = λ s. refl;
  messages = λ s. refl;
}

-- Two threads, each with an object that has no tag.
same_tag_example :
    (t : Agent machine) × (d : ℕ → TagPc) × TagRuns machine (λ i. i) begun (λ i. reading) t d
    × ((d 5 ≡ returned (pos 3, true)) × (d 6 ≡ returned (pos 3, true)))
    × ((tag_of machine 5 t ≡ pos 3) × (tag_of machine 6 t ≡ pos 3))
same_tag_example =
    same_tag machine machine-Laws (λ i. i) begun (λ i. reading) 5 6 (λ e. omega (arith, e)) refl
      refl refl refl
