-- ===== src/Store/Answers.antt =====
-- The answers of Agent/src/c/MessageStore.c to any sequence of requests.
use jvmheap_scan.Base.{ℕ, ◌≡◌, refl, List, [], ◌∷◌}
use jvmheap_scan.Store.Memory.{Store, ok}
use jvmheap_scan.Store.Requests.{
  Request, send, retrieve, serve, serve_all, Queues, answer, answer_all, IsAllowed, AreAllowed,
}
use jvmheap_scan.Store.Represents.{Represents}
use jvmheap_scan.Store.Refinement.{on_flush_msg-Represents, read-Represents}

serve-Represents :
    (limit : ℕ) (s : Store) (q : Queues) (a : Request)
    → IsAllowed limit a q
    → Represents limit s q
    → (t : Store) × (serve a s ≡ ok (answer limit a q).0 t)
      × Represents limit t (answer limit a q).1
unfolding answer serve
serve-Represents limit s q (send id m) allowed r =
    let (t, run, r') = on_flush_msg-Represents limit s q r id m allowed in (t, rw run refl, r')
serve-Represents limit s q (retrieve sep id) allowed r =
    let (t, run, r') = read-Represents limit s q r sep id in (t, rw run, r')

-- The store answers any sequence of allowed requests as the queues do, and its holders contain the
-- queues that are left.
pub serve_all-Represents :
    (limit : ℕ) (rs : List Request) (s : Store) (q : Queues)
    → AreAllowed limit rs q
    → Represents limit s q
    → (t : Store) × (serve_all rs s ≡ ok (answer_all limit rs q).0 t)
      × Represents limit t (answer_all limit rs q).1
unfolding serve_all answer_all
serve_all-Represents limit [] s q allowed r = (s, refl, r)
serve_all-Represents limit (a ∷ rs) s q allowed r =
    let (t, run, r') = serve-Represents limit s q a allowed.0 r in
    let (z, runs, r'') = serve_all-Represents limit rs t (answer limit a q).1 allowed.1 r' in
    (z, rw (run, runs) refl, r'')
