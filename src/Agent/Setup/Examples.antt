-- ===== src/Agent/Setup/Examples.antt =====
-- The setup of Agent/src/c/JVMHeapScan.c at a concrete machine, and a properties file.
use jvmheap_scan.Base.{
  ℕ, ◌≡◌, refl, false, ◌⊎◌, ◌==◌, none, some, List, [], ◌∷◌, ◌++◌, arith, codes, length, ◌<◌,
}
use jvmheap_scan.Base.Int.{pos}
use jvmheap_scan.Store.Tests.{blank}
use jvmheap_scan.Agent.Machine.{Call, Machine, done, raw_monitor_enter, add_capabilities}
use jvmheap_scan.Agent.Options.{
  AgentOptions, loaded, no_file, overflow, on_set_options, properties_path, read_options,
}
use jvmheap_scan.Agent.Options.RoundTrip.{
  IsWord, every, print_options, on_set_options-print, read_options-blank,
}
use jvmheap_scan.Agent.Setup.{Program, agent_on_load, class_loaded}
use jvmheap_scan.Agent.Setup.Checked.{Strict}
use jvmheap_scan.Agent.Setup.Errors.{agent_on_load-Strict}
use jvmheap_scan.Agent.Setup.Ready.{Ready, agent_on_load-Ready}
use jvmheap_scan.Agent.Setup.Hooks.{Loads, class_loaded-Loads}

-- The file that is found at every path.
abbrev properties : List ℕ
properties = print_options (codes "C:\\tracker.jar") (codes "9000") 50

abbrev machine : Machine
machine = record {
  error_none = 0;
  answer = λ calls c. 0;
  error_name = λ calls code. 0;
  instrument = λ bytes. 1 ∷ bytes;
  files = λ path. some properties;
}

-- A machine that refuses the capabilities only.
abbrev refusing : Machine
refusing = record machine { answer = λ calls c. elim c [ add_capabilities _ ↦ 98 | _ ↦ 0 ] }

abbrev begun : Program
begun = record { store = blank; shared = none; status_lock = none; sizes = none; jar_path = none }

abbrev options : AgentOptions
options = record {
  socket_msg_limit = pos 50;
  port = codes "9000";
  tracker_path = codes "C:\\tracker.jar";
}

path_IsWord : IsWord (codes "C:\\tracker.jar")
unfolding every
path_IsWord = (λ e. cc, refl)

port_IsWord : IsWord (codes "9000")
unfolding every
port_IsWord = (λ e. cc, refl)

my_IsWord : IsWord (codes "C:\\my")
unfolding every
my_IsWord = (λ e. cc, refl)

short : length (properties_path none) < 260
unfolding properties_path
short = omega arith

on_set_options-print_example : on_set_options machine.files none ≡ loaded options
on_set_options-print_example =
    on_set_options-print machine.files none (codes "C:\\tracker.jar") (codes "9000") 50 refl short
      path_IsWord (omega arith) port_IsWord (omega arith) (omega arith)

read_options-blank_example :
    read_options (codes "Java Tracker Path:" ++ (codes "C:\\my" ++ (b' ' ∷ (b'j' ∷ []))))
    ≡ record { socket_msg_limit = pos 0; port = []; tracker_path = codes "C:\\my" }
read_options-blank_example =
    read_options-blank (codes "C:\\my") [] b'j' my_IsWord refl (omega arith) (omega arith)

agent_on_load-Ready_example :
    (calls : List Call) × (q : Program) × (agent_on_load machine none [] begun ≡ done tt calls q)
    × Ready options calls q
agent_on_load-Ready_example =
    agent_on_load-Ready machine none options begun refl (λ calls c. refl)
      (on_set_options-print machine.files none (codes "C:\\tracker.jar") (codes "9000") 50 refl
        short path_IsWord (omega arith) port_IsWord (omega arith) (omega arith))
      (omega arith) refl refl

agent_on_load-Strict_example :
    Strict refusing
      (on_set_options refusing.files none ≡ no_file)
      ((on_set_options refusing.files none ≡ overflow) ⊎ ((0 == 0) ≡ false))
      (agent_on_load refusing none [] begun)
agent_on_load-Strict_example = agent_on_load-Strict refusing none begun

class_loaded-Loads_example :
    Loads machine "java/lang/Object"
      (7 ∷ [])
      (raw_monitor_enter ∷ [])
      begun
      (class_loaded machine (some "java/lang/Object") (7 ∷ []) (raw_monitor_enter ∷ []) begun)
class_loaded-Loads_example =
    class_loaded-Loads machine "java/lang/Object" (7 ∷ []) (raw_monitor_enter ∷ []) begun (refl, tt)
