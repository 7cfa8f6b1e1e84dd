-- ===== src/MacosClient/LifeExamples.antt =====
-- The theorems on creation and deletion over a concrete table.
use mac_os_vz_kubelet.Common.{
  ◌≤◌, ◌≡◌, ◌↔◌, refl, String, Bool, true, false, none, some, [], ◌∷◌, NamespacedName, GoError,
  text, arith, namespaced_name_comparable,
}
use mac_os_vz_kubelet.Resource.VirtualMachine.{
  MacOsVirtualMachine, VirtualMachineInstance, vz_starting, set_instance,
  set_post_start_finished_at,
}
use mac_os_vz_kubelet.Store.Assoc.{assoc_map}
use mac_os_vz_kubelet.MacosClient.VmData.{VirtualMachineInfo, VmMap, load, all}
use mac_os_vz_kubelet.MacosClient.Permits.{Client, new_guard}
use mac_os_vz_kubelet.MacosClient.Permits.Balance.{holders, IsBalanced}
use mac_os_vz_kubelet.MacosClient.Creation.{
  VirtualMachineParams, Creation, Stage, new_creation, run, proceed, start_returned,
  post_start_returned, done, pulled_image, created_container, started_container,
}
use mac_os_vz_kubelet.MacosClient.Creation.Progress.{start, others, started, created, Run-events}
use mac_os_vz_kubelet.MacosClient.Creation.FullRun.{up_to_start, run_success}

abbrev table : VmMap
table = assoc_map

abbrev key : String → NamespacedName
key name = record { namespace = "default"; name = name }

abbrev params : VirtualMachineParams
params = record {
  image = "image";
  key = key "a";
  container_name = "macos";
  env = [];
  post_start_action = none;
}

abbrev vm : MacOsVirtualMachine
vm = record { env = []; instance_ptr = none; err = none; post_start_finished = 0 }

abbrev entry : VirtualMachineInfo
entry = record {
  ref = "image";
  resource = vm;
  download_cancel_func = some 4;
  permit_acquired = false;
  ssh_conn = some 9;
}

abbrev machine : VirtualMachineInstance
machine = record {
  ip_address = "";
  created_at = 10;
  started_at = none;
  finished_at = none;
  vz_state = vz_starting;
}

-- One virtual machine is registered, and no token is sent.
abbrev idle : Client table
idle = record { vms = (key "a", entry) ∷ []; permits = 0 }

abbrev never : GoError → Bool
never e = false

abbrev boom : GoError
boom = text "boom"

idle-IsBalanced : IsBalanced table 0 idle
unfolding holders all
idle-IsBalanced = omega arith

run_success_example :
    (g' : Creation) × (c' : Client table) × (run table never params 4
        (up_to_start table never params 4 machine
          (start_returned none ∷ post_start_returned none 70 ∷ proceed ∷ proceed ∷ []))
        (new_creation params)
        idle
      ≡ some (g', c'))
    × (g'.stage ≡ done)
    × (g'.guard.committed ≡ true)
    × (g'.events ≡ started_container ∷ created_container ∷ pulled_image ∷ [])
    × (c'.permits ≡ 1)
    × (load table (key "a") c'.vms
        ≡ some (record entry {
          resource = set_post_start_finished_at 70 (set_instance machine vm);
          download_cancel_func = none;
          permit_acquired = true;
        }))
unfolding load
run_success_example = run_success table never params 4 machine 70 idle entry refl refl (omega arith)

abbrev at : Stage → Creation
at stage = record { stage = stage; guard = new_guard (key "a"); events = [] }

Run-events_example :
    (started (new_creation params) ≤ created (new_creation params))
    × (created (new_creation params) ≤ 1)
    × ((◌≡◌ {A = Bool} false true) ↔ (started (new_creation params) ≡ 1))
Run-events_example = Run-events table never params 4 (others idle (start idle))
