-- ===== src/Guest/Examples.antt =====
-- The theorems on executions in a guest at concrete answers of it.
use mac_os_vz_kubelet.Common.{
  String, ◌<>◌, ◌≡◌, refl, true, false, none, some, List, [], ◌∷◌, Option, GoError, text,
  NamespacedName, namespaced_name_comparable, All, inl,
}
use mac_os_vz_kubelet.Store.Assoc.{assoc_map}
use mac_os_vz_kubelet.Resource.VirtualMachine.{EnvVar, new_macos_virtual_machine}
use mac_os_vz_kubelet.MacosClient.VmData.{VmMap, VirtualMachineInfo, load}
use mac_os_vz_kubelet.Guest.Sessions.{AttachIo, SessionAct, wait, execute_command}
use mac_os_vz_kubelet.Guest.Sessions.Plan.{carry_out, plan, execute_command-eq-carry_out}
use mac_os_vz_kubelet.Guest.Exec.{Guest, exec_in_virtual_machine}
use mac_os_vz_kubelet.Guest.Exec.Calls.{Passes, skips_terminal}
use mac_os_vz_kubelet.Guest.Exec.Sessions.{
  OneSession, exec_in_virtual_machine_lem, exec_without_size,
}

abbrev table : VmMap
table = assoc_map

abbrev key : NamespacedName
key = record { namespace = "default"; name = "a" }

abbrev env : List EnvVar
env = record { name = "CI"; value = "1" } ∷ []

-- A virtual machine with the connection 4.
abbrev info : VirtualMachineInfo
info = record {
  ref = "image";
  resource = new_macos_virtual_machine env;
  download_cancel_func = none;
  permit_acquired = true;
  ssh_conn = some 4;
}

-- The command of the guest fails, and all else goes well.
abbrev answers : SessionAct → Option GoError
answers wait = some (text "Process exited with status 3")
answers _ = none

abbrev quoted : String → String
quoted s = "'" <> s <> "'"

abbrev guest : Guest
guest = record {
  world = answers;
  quote = quoted;
  has_newline = λ s. false;
  term = "";
  exit_status = λ e. some 3;
}

abbrev plain : AttachIo
plain = record { tty = false; has_stdin = true; first_resize = none }

abbrev terminal : AttachIo
terminal = record {
  tty = true;
  has_stdin = true;
  first_resize = some (record { width = 0; height = 0 });
}

execute_command-eq-carry_out_example :
    execute_command answers quoted (λ s. false) plain env ("make" ∷ [])
    ≡ carry_out answers (plan quoted (λ s. false) plain env ("make" ∷ []))
execute_command-eq-carry_out_example =
    execute_command-eq-carry_out answers quoted (λ s. false) plain env ("make" ∷ [])

exec_in_virtual_machine_lem_example :
    OneSession 4 (exec_in_virtual_machine guest table key ("make" ∷ []) plain ((key, info) ∷ [])).0
unfolding load
exec_in_virtual_machine_lem_example =
    exec_in_virtual_machine_lem guest table key ("make" ∷ []) plain ((key, info) ∷ [])

exec_without_size_example :
    All
      (Passes skips_terminal)
      (exec_in_virtual_machine guest table key ("zsh" ∷ []) terminal ((key, info) ∷ [])).0
exec_without_size_example =
    exec_without_size guest table key ("zsh" ∷ []) terminal ((key, info) ∷ [])
      (record { width = 0; height = 0 }) refl refl (inl refl)
