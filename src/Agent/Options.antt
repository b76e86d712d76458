-- ===== src/Agent/Options.antt =====
-- `onSetOptions` of Agent/src/c/JVMHeapScan.c, with what `fscanf` does on the formats that it passes.
pub mod Scan
pub mod RoundTrip
use jvmheap_scan.Base.{
  ℕ, ◌+◌, ◌*◌, ◌^◌, Bool, true, false, Option, none, some, List, [], ◌∷◌, ◌++◌, ◌||◌, ltb, leb,
  ◌==◌, if◌then◌else◌, length, codes,
}
use jvmheap_scan.Base.Int.{ℤ, pos, negsuc}
use jvmheap_scan.Agent.Options.Scan.{Value, text, number, scan, format}

-- `PROPERTIES_FILE_NAME`; its blank at the end belongs to the source line, not to the text.
abbrev pub properties_file_name : List ℕ
properties_file_name = codes "JVMHeapScan.properties"

-- `struct _AgentOptions`
pub record AgentOptions : Type 0 where
  pub socket_msg_limit : ℤ
  pub port : List ℕ
  pub tracker_path : List ℕ

-- What `onSetOptions` does: it returns, it ends the process since there is no file, or its behaviour is
-- undefined, since it writes past one of its arrays or reads a number that an `int` does not hold.
pub data Loaded : Type 0 where
  loaded : AgentOptions → Loaded
  no_file : Loaded
  overflow : Loaded

-- `propertiesFileFN`
unfoldable pub properties_path : Option (List ℕ) → List ℕ
properties_path none = codes ".\\" ++ properties_file_name
properties_path (some directory) = directory ++ (b'\\' ∷ properties_file_name)

-- What the array holds after the `fscanf`: it is left alone where nothing was converted.
abbrev pub text_or : List ℕ → Option Value → List ℕ
text_or old none = old
text_or old (some (text t)) = t
text_or old (some (number n)) = old

abbrev pub number_or : ℤ → Option Value → ℤ
number_or old none = old
number_or old (some (text t)) = old
number_or old (some (number n)) = n

-- The three calls of `fscanf`. The static variables start as zeros.
unfoldable pub read_options : List ℕ → AgentOptions
unfolding scan format
read_options file =
    let (path, rest) = scan (format (codes "Java Tracker Path:%s\n")) file none in
    let (port, rest') = scan (format (codes "Default Port:%s\n")) rest none in
    let (limit, rest'') = scan (format (codes "Socket Message Limit:%d\n")) rest' none in
    record {
      socket_msg_limit = number_or (pos 0) limit;
      port = text_or [] port;
      tracker_path = text_or [] path;
    }

-- An `int` has 32 bits.
abbrev pub fits_int : ℤ → Bool
fits_int (pos n) = ltb n (2 ^ 31)
fits_int (negsuc n) = ltb n (2 ^ 31)

-- `files` is what `fopen` finds. The arrays have 260, 260 and 6 bytes, one of them for the NUL.
unfoldable pub on_set_options : (List ℕ → Option (List ℕ)) → Option (List ℕ) → Loaded
on_set_options files options =
    if ltb (length (properties_path options)) 260
    then elim (files (properties_path options)) [
      | none ↦ no_file
      | some file ↦
          if ltb (length (read_options file).tracker_path) 260
          then (if ltb (length (read_options file).port) 6
              then (if fits_int (read_options file).socket_msg_limit
                  then loaded (read_options file)
                  else overflow)
              else overflow)
          else overflow
    ]
    else overflow
