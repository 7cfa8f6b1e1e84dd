-- ===== src/Resource/VirtualMachine.antt =====
-- pkg/resource/virtual_machine.go: the view of a macOS virtual machine that the provider maps to a
-- pod. A time.Time is a number of nanoseconds, 0 being the zero time; a *time.Time is an Option.
-- `MacOSVirtualMachine.instance` is a pointer: the record holds what is read through it at the call.
use mac_os_vz_kubelet.Common.{ℕ, String, Option, none, some, List, GoError, nat_eq, if◌then◌else◌}

pub data VirtualMachineState : Type 0 where
  preparing starting running terminating terminated failed : VirtualMachineState

-- vz.VirtualMachineState, the four states that the program names and all others.
pub data VzState : Type 0 where
  vz_starting vz_running vz_stopping vz_stopped : VzState
  vz_other : ℕ → VzState

pub record EnvVar : Type 0 where
  pub name : String
  pub value : String

-- pkg/vm/instance.go, the fields that are read here; `vz_state` is what `State()` returns.
pub record VirtualMachineInstance : Type 0 where
  pub ip_address : String
  pub created_at : ℕ
  pub started_at : Option ℕ
  pub finished_at : Option ℕ
  pub vz_state : VzState

pub record MacOsVirtualMachine : Type 0 where
  pub env : List EnvVar
  pub instance_ptr : Option VirtualMachineInstance
  pub err : Option GoError
  pub post_start_finished : ℕ

unfoldable pub new_macos_virtual_machine : List EnvVar → MacOsVirtualMachine
new_macos_virtual_machine env = record {
  env = env;
  instance_ptr = none;
  err = none;
  post_start_finished = 0;
}

unfoldable pub set_instance : VirtualMachineInstance → MacOsVirtualMachine → MacOsVirtualMachine
set_instance i m = record m { instance_ptr = some i }

unfoldable pub set_error : GoError → MacOsVirtualMachine → MacOsVirtualMachine
set_error e m = record m { err = some e }

unfoldable pub set_post_start_finished_at : ℕ → MacOsVirtualMachine → MacOsVirtualMachine
set_post_start_finished_at t m = record m { post_start_finished = t }

abbrev pub of_vz_state : VzState → VirtualMachineState
of_vz_state vz_starting = starting
of_vz_state vz_running = running
of_vz_state vz_stopping = terminating
of_vz_state vz_stopped = terminated
of_vz_state (vz_other _) = failed

abbrev of_instance : Option VirtualMachineInstance → VirtualMachineState
of_instance none = preparing
of_instance (some i) = of_vz_state i.vz_state

abbrev of_error : Option GoError → VirtualMachineState → VirtualMachineState
of_error (some _) s = failed
of_error none s = s

unfoldable pub state : MacOsVirtualMachine → VirtualMachineState
state m = of_error m.err (of_instance m.instance_ptr)

abbrev ip_of : Option VirtualMachineInstance → String
ip_of none = ""
ip_of (some i) = i.ip_address

unfoldable pub ip_address : MacOsVirtualMachine → String
ip_address m = ip_of m.instance_ptr

abbrev started_of : Option VirtualMachineInstance → Option ℕ
started_of none = none
started_of (some i) = i.started_at

unfoldable pub started_at : MacOsVirtualMachine → Option ℕ
started_at m = started_of m.instance_ptr

abbrev finished_of : Option VirtualMachineInstance → Option ℕ
finished_of none = none
finished_of (some i) = i.finished_at

unfoldable pub finished_at : MacOsVirtualMachine → Option ℕ
finished_at m = finished_of m.instance_ptr

unfoldable pub post_start_finished_at : MacOsVirtualMachine → Option ℕ
post_start_finished_at m =
    if nat_eq m.post_start_finished 0 then none else some m.post_start_finished
