-- ===== src/Agent/Options/RoundTrip.antt =====
-- What `onSetOptions` of Agent/src/c/JVMHeapScan.c makes of a properties file.
use jvmheap_scan.Base.{
  ℕ, zero, suc, ◌^◌, ◌+◌, ◌%◌, ◌/◌, ◌≤◌, ◌<◌, ◌≡◌, ◌≢◌, refl, ◌∙◌, ap, Bool, true, false, ◌&&◌, not,
  Option, none, some, List, [], ◌∷◌, ◌++◌, arith, ltb, lt→ltb, ◌==◌, if◌then◌else◌, length, codes,
}
use jvmheap_scan.Base.Int.{pos}
use jvmheap_scan.Agent.Chars.{decimal, digits_loop, read_digits, read-digits_loop}
use jvmheap_scan.Agent.Options.Scan.{
  Directive, plain, white, word, decimal_number, text, number, is_space, is_digit, is_visible,
  skip_space, span, digits, signed, scan,
}
use jvmheap_scan.Agent.Options.{loaded, properties_path, read_options, on_set_options}

unfoldable pub every : (ℕ → Bool) → List ℕ → Bool
every test [] = true
every test (c ∷ cs) = test c && every test cs

span-every :
    (test : ℕ → Bool) (w : List ℕ) (d : ℕ) (rest : List ℕ)
    → every test w ≡ true
    → test d ≡ false
    → span test (w ++ d ∷ rest) ≡ (w, d ∷ rest)
unfolding every span
span-every test [] d rest all stop = rw stop
span-every test (c ∷ cs) d rest all stop = ground (arith, span-every test cs d rest)

every-digits_loop :
    (f value : ℕ) (rest : List ℕ)
    → value ≤ f
    → every is_digit rest ≡ true
    → every is_digit (digits_loop f value rest) ≡ true
unfolding every digits_loop
every-digits_loop zero value rest h r = ground arith
every-digits_loop (suc f) value rest h r =
    ground (arith, every-digits_loop f (value / 10) ((value % 10 + 48) ∷ rest))

digits_loop-cons :
    (f value : ℕ) (rest : List ℕ) → (c : ℕ) × (cs : List ℕ) × (digits_loop f value rest ≡ c ∷ cs)
unfolding digits_loop
digits_loop-cons zero value rest = (_, _, refl)
digits_loop-cons (suc f) value rest =
    let (c, cs, e) = digits_loop-cons f (value / 10) ((value % 10 + 48) ∷ rest) in
    elim (ltb value 10)
      as (λ b.
        (c : ℕ) × (cs : List ℕ) × ((if b
            then (value + 48) ∷ rest
            else digits_loop f (value / 10) ((value % 10 + 48) ∷ rest))
          ≡ c ∷ cs)) [ true ↦ (_, _, refl) | false ↦ (c, cs, e) ]

signed-digits :
    (c : ℕ) (cs : List ℕ) (d : ℕ) (rest : List ℕ)
    → every is_digit (c ∷ cs) ≡ true
    → is_digit d ≡ false
    → signed ((c ∷ cs) ++ d ∷ rest) ≡ (some (pos (read_digits 0 (c ∷ cs))), d ∷ rest)
unfolding signed digits every
signed-digits c cs d rest all stop =
    rw (not_minus, not_plus, span-every is_digit (c ∷ cs) d rest all stop)
  where
    not_minus : (c == b'-') ≡ false
    not_minus = ground arith

    not_plus : (c == b'+') ≡ false
    not_plus = ground arith

-- A text that `%s` reads whole.
abbrev pub IsWord : List ℕ → Type 0
IsWord w = (w ≢ []) × (every is_visible w ≡ true)

skip-word : (w rest : List ℕ) → IsWord w → skip_space (w ++ rest) ≡ w ++ rest
unfolding skip_space every
skip-word [] rest h = absurd (h.0 refl)
skip-word (c ∷ cs) rest h = let v = h.1 in ground arith

scan_found :
    (file : List ℕ) (c : ℕ) (cs rest : List ℕ)
    → span is_visible (skip_space file) ≡ (c ∷ cs, rest)
    → scan (word ∷ white ∷ []) file none ≡ (some (text (c ∷ cs)), skip_space rest)
unfolding scan
scan_found file c cs rest e = rw (scan, e, e)

scan-word :
    (w rest : List ℕ) (d : ℕ)
    → IsWord w
    → is_space d ≡ true
    → scan (word ∷ white ∷ []) (w ++ d ∷ rest) none ≡ (some (text w), skip_space (d ∷ rest))
scan-word [] rest d h blank = absurd (h.0 refl)
scan-word (c ∷ cs) rest d h blank = scan_found ((c ∷ cs) ++ d ∷ rest) c cs (d ∷ rest) (
    ap (span is_visible) (skip-word (c ∷ cs) (d ∷ rest) h)
    ∙ span-every is_visible (c ∷ cs) d rest h.1 (ap not blank))

skip-digits :
    (w rest : List ℕ) → w ≢ [] → every is_digit w ≡ true → skip_space (w ++ rest) ≡ w ++ rest
unfolding skip_space every
skip-digits [] rest ne all = absurd (ne refl)
skip-digits (c ∷ cs) rest ne all = ground arith

read_nil : (n : ℕ) → read_digits n [] ≡ n
unfolding read_digits
read_nil n = refl

signed-decimal :
    (n : ℕ) → signed (skip_space (decimal (pos n) ++ 10 ∷ [])) ≡ (some (pos n), 10 ∷ [])
unfolding decimal every
signed-decimal n =
    let (c, cs, e) = digits_loop-cons n n [] in
    let all : every is_digit (c ∷ cs) ≡ true =
      rw e at (every-digits_loop n n [] (omega arith) refl) in
    let value : read_digits 0 (c ∷ cs) ≡ n =
      rw e at (read-digits_loop n n [] (omega arith) ∙ read_nil n) in
    rw (e, skip-digits (c ∷ cs) (10 ∷ []) (λ h. cc) all, signed-digits c cs 10 [] all refl, value)

scan-number :
    (n : ℕ)
    → scan (decimal_number ∷ white ∷ []) (decimal (pos n) ++ 10 ∷ []) none
      ≡ (some (number (pos n)), [])
unfolding scan
scan-number n = rw (scan, signed-decimal n, signed-decimal n)

-- A properties file as it is meant to be.
unfoldable pub print_options : List ℕ → List ℕ → ℕ → List ℕ
print_options path port limit =
    codes "Java Tracker Path:"
    ++ (path
        ++ (10
            ∷ (codes "Default Port:"
                ++ (port
                    ++ (10
                        ∷ (codes "Socket Message Limit:" ++ (decimal (pos limit) ++ (10 ∷ []))))))))

read_options-print :
    (path port : List ℕ) (limit : ℕ)
    → IsWord path
    → IsWord port
    → read_options (print_options path port limit)
      ≡ record { socket_msg_limit = pos limit; port = port; tracker_path = path }
unfolding read_options print_options
read_options-print path port limit p q =
    rw (scan-word path _ 10 p refl, scan-word port _ 10 q refl, scan-number limit)

-- A properties file with a path and a port that are not empty, hold no white space and fit their
-- arrays, and with a limit below 2 ^ 31, is read back, whatever the directory that is given, if the
-- file's path fits its array too.
pub on_set_options-print :
    (files : List ℕ → Option (List ℕ)) (options : Option (List ℕ)) (path port : List ℕ) (limit : ℕ)
    → files (properties_path options) ≡ some (print_options path port limit)
    → length (properties_path options) < 260
    → IsWord path
    → length path < 260
    → IsWord port
    → length port < 6
    → limit < 2 ^ 31
    → on_set_options files options
      ≡ loaded (record { socket_msg_limit = pos limit; port = port; tracker_path = path })
unfolding on_set_options
on_set_options-print files options path port limit found short p lp q lq in_range = rw (
  found,
  lt→ltb _ _ short,
  read_options-print path port limit p q,
  lt→ltb _ _ lp,
  lt→ltb _ _ lq,
  lt→ltb _ _ in_range,
)

skip_one :
    (c : ℕ) (behind : List ℕ) → is_visible c ≡ true → skip_space (b' ' ∷ c ∷ behind) ≡ c ∷ behind
unfolding skip_space
skip_one c behind v = ground arith

-- The plain character that the file does not have.
scan-mismatch :
    (ds : List Directive) (c d : ℕ) (behind : List ℕ)
    → c ≢ d
    → scan (plain d ∷ ds) (c ∷ behind) none ≡ (none, c ∷ behind)
unfolding scan
scan-mismatch ds c d behind ne = let e : (c == d) ≡ false = ground arith in rw (scan, e)

-- A path with a blank in it is cut there, and neither the port nor the limit is read, if what stands
-- before the blank is not empty and holds no white space, and what stands behind it begins with a
-- visible character that is neither D nor S.
pub read_options-blank :
    (path behind : List ℕ) (c : ℕ)
    → IsWord path
    → is_visible c ≡ true
    → c ≢ b'D'
    → c ≢ b'S'
    → read_options (codes "Java Tracker Path:" ++ (path ++ (b' ' ∷ (c ∷ behind))))
      ≡ record { socket_msg_limit = pos 0; port = []; tracker_path = path }
unfolding read_options
read_options-blank path behind c p v nd ns = rw (
  scan-word path (c ∷ behind) b' ' p refl,
  skip_one c behind v,
  scan-mismatch _ c b'D' behind nd,
  scan-mismatch _ c b'S' behind ns,
)
