-- ===== src/Agent/Setup/Seen.antt =====
-- What the virtual machine and Winsock have been told by the setup in Agent/src/c/JVMHeapScan.c, read off
-- the calls that it has made.
use jvmheap_scan.Base.{ℕ, Bool, true, false, ◌||◌, if◌then◌else◌, Option, none, some, List, [], ◌∷◌}
use jvmheap_scan.Agent.Machine.{
  Hook, Handler, Callbacks, Call, vm_init, vm_death, vm_start, class_file_load, object_free,
  vm_initialization, on_vm_death, on_vm_start, on_object_free, on_class_file_load, enable,
  set_event_callbacks, get_addr_info, add_to_bootstrap_class_loader_search, bind_socket,
  open_socket,
}

abbrev handler_of : Hook → Callbacks → Option Handler
handler_of h c = elim h [
  | vm_init ↦ c.vm_init
  | vm_death ↦ c.vm_death
  | vm_start ↦ c.vm_start
  | object_free ↦ c.object_free
  | class_file_load ↦ c.class_file_load
]

-- The function that is meant for an event.
abbrev pub meant_for : Hook → Handler
meant_for vm_init = vm_initialization
meant_for vm_death = on_vm_death
meant_for vm_start = on_vm_start
meant_for object_free = on_object_free
meant_for class_file_load = on_class_file_load

abbrev same_hook : Hook → Hook → Bool
same_hook vm_init vm_init = true
same_hook vm_death vm_death = true
same_hook vm_start vm_start = true
same_hook object_free object_free = true
same_hook class_file_load class_file_load = true
same_hook _ _ = false

-- Whether the agent has asked for an event.
abbrev pub enabled : Hook → List Call → Bool
enabled h [] = false
enabled h (c ∷ cs) = elim c [ enable g ↦ same_hook h g || enabled h cs | _ ↦ enabled h cs ]

-- The function that the virtual machine calls at an event.
abbrev pub installed : Hook → List Call → Option Handler
installed h [] = none
installed h (c ∷ cs) = elim c [ set_event_callbacks k ↦ handler_of h k | _ ↦ installed h cs ]

-- The port whose address was asked for last, and whether a socket was opened.
abbrev pub port_of : List Call → Option (List ℕ)
port_of [] = none
port_of (c ∷ cs) = elim c [ get_addr_info port ↦ some port | _ ↦ port_of cs ]

abbrev pub opened_socket : List Call → Bool
opened_socket [] = false
opened_socket (c ∷ cs) = elim c [ open_socket ↦ true | _ ↦ opened_socket cs ]

-- The port that an open socket was bound to last.
abbrev pub bound_to : List Call → Option (List ℕ)
bound_to [] = none
bound_to (c ∷ cs) = elim c [
  | bind_socket ↦ if opened_socket cs then port_of cs else none
  | _ ↦ bound_to cs
]

-- The path that is searched for the tracker class.
abbrev pub searched : List Call → Option (List ℕ)
searched [] = none
searched (c ∷ cs) = elim c [
  | add_to_bootstrap_class_loader_search path ↦ some path
  | _ ↦ searched cs
]
