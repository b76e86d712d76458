-- ===== src/Agent/Tags/Laws.antt =====
-- What the documentation of the JVM Tool Interface says of tags, for the code in
-- Agent/src/c/JVMHeapScan.c that relies on it.
use jvmheap_scan.Base.{ℕ, List, ◌≤◌, ◌≡◌, ◌≢◌}
use jvmheap_scan.Base.Int.{ℤ, pos}
use jvmheap_scan.Agent.Tags.{Jvmti, Agent}

-- The calls succeed and the monitor changes no signature; a tag that is set is read back, and the tags of other objects
-- and the signatures of classes stay.
pub record Laws (j : Jvmti) : Type 0 where
  pub same : Discrete j.Object
  pub get_ok : (o : j.Object) (e : j.Env) → (j.get_tag o e).0 ≡ j.error_none
  pub set_ok : (o : j.Object) (t : ℤ) (e : j.Env) → (j.set_tag o t e).0 ≡ j.error_none
  pub sign_ok : (o : j.Object) (e : j.Env) → (j.get_class_signature o e).0 ≡ j.error_none
  pub get_set : (o : j.Object) (t : ℤ) (e : j.Env) → (j.get_tag o (j.set_tag o t e).1).1 ≡ t
  pub get_set_ne :
      (o p : j.Object) (t : ℤ) (e : j.Env)
      → o ≢ p
      → (j.get_tag p (j.set_tag o t e).1).1 ≡ (j.get_tag p e).1
  pub sign_set :
      (o p : j.Object) (t : ℤ) (e : j.Env)
      → (j.get_class_signature p (j.set_tag o t e).1).1 ≡ (j.get_class_signature p e).1
  pub enter_ok : (e : j.Env) → (j.raw_monitor_enter e).0 ≡ j.error_none
  pub exit_ok : (e : j.Env) → (j.raw_monitor_exit e).0 ≡ j.error_none
  pub loaded_ok : (e : j.Env) → (j.get_loaded_classes e).0 ≡ j.error_none
  pub sign_enter :
      (o : j.Object) (e : j.Env)
      → (j.get_class_signature o (j.raw_monitor_enter e).1).1 ≡ (j.get_class_signature o e).1

abbrev pub tag_of : (j : Jvmti) → j.Object → Agent j → ℤ
tag_of j o s = (j.get_tag o s.env).1

abbrev pub sign_of : (j : Jvmti) → j.Object → Agent j → List ℕ
sign_of j o s = (j.get_class_signature o s.env).1

-- Every tag is at most `lastTag`, and no two objects share one.
pub record IsUnique (j : Jvmti) (s : Agent j) : Type 0 where
  pub number : j.Object → ℕ
  pub is : (o : j.Object) → tag_of j o s ≡ pos (number o)
  pub bound : (o : j.Object) → number o ≤ s.last_tag
  pub distinct : (o p : j.Object) → number o ≡ number p → number o ≢ 0 → o ≡ p
