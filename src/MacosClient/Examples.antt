-- ===== src/MacosClient/Examples.antt =====
-- The theorems on the macOS client over a concrete table.
use mac_os_vz_kubelet.Common.{
  suc, ◌≤◌, ◌<◌, ◌≡◌, ◌+◌, ◌<◌, refl, String, Bool, true, false, none, some, [], ◌∷◌,
  NamespacedName, arith, namespaced_name_comparable,
}
use mac_os_vz_kubelet.Resource.VirtualMachine.{MacOsVirtualMachine}
use mac_os_vz_kubelet.Store.Assoc.{assoc_map}
use mac_os_vz_kubelet.MacosClient.VmData.{
  VirtualMachineInfo, VmMap, load, load_or_store, all, delete, update,
}
use mac_os_vz_kubelet.MacosClient.Permits.{
  Client, Guard, new_guard, commit, max_virtual_machines, receive_permit, send_permit,
  mark_permit_acquired, drain_permit,
}
use mac_os_vz_kubelet.MacosClient.Permits.Balance.{holders, IsBalanced}
use mac_os_vz_kubelet.MacosClient.Permits.Release.{late_release, late_release-holders}
use mac_os_vz_kubelet.MacosClient.Permits.Schedule.{
  System, Reach, new_system, here, next, sent, claimed, created, deleted, missed, drained,
  Reach-holders,
}

abbrev table : VmMap
table = assoc_map

abbrev key : String → NamespacedName
key name = record { namespace = "default"; name = name }

abbrev vm : MacOsVirtualMachine
vm = record { env = []; instance_ptr = none; err = none; post_start_finished = 0 }

abbrev entry : Bool → VirtualMachineInfo
entry held = record {
  ref = "image";
  resource = vm;
  download_cancel_func = none;
  permit_acquired = held;
  ssh_conn = none;
}

-- Two virtual machines hold the two permits.
abbrev busy : Client table
busy = record { vms = (key "a", entry true) ∷ (key "b", entry true) ∷ []; permits = 2 }

busy-IsBalanced : IsBalanced table 0 busy
unfolding holders all
busy-IsBalanced = omega arith

late_release-holders_example :
    (g : Guard) × (c' : Client table) × (late_release table (key "a") busy ≡ some (g, c'))
    × (suc c'.permits ≡ holders table c')
unfolding load holders all
late_release-holders_example =
    late_release-holders table (key "a") busy (entry true) refl refl busy-IsBalanced (omega arith)

abbrev done : Guard
done = record (commit (new_guard (key "a"))) { released = true }

-- A creation gets its permit between the two calls of a deletion, so that the entry is deleted with
-- it; the release of its guard then finds no entry and drains the channel.
abbrev deleted_system : System table
deleted_system = record {
  client = record { vms = []; permits = 0 };
  claiming = 0;
  clearing = 0;
  draining = 0;
  lost = 1;
  drained_tokens = 1;
}

deleted_system-Reach : Reach table (new_system table) deleted_system
unfolding send_permit load_or_store mark_permit_acquired drain_permit receive_permit load delete
    update
deleted_system-Reach =
    next
      (next
        (next
          (next (next (next here (created (key "a") (entry false) refl refl)) (sent _ refl refl))
            (claimed (key "a") 0 _ refl refl refl))
          (deleted (key "a") refl))
        (missed (key "a") refl refl))
      (drained 0 refl refl)

Reach-holders_example :
    (0 + 1 ≡ holders table deleted_system.client + (0 + 0) + 1)
    × (holders table deleted_system.client + 1 ≤ max_virtual_machines + 1)
    × (1 ≤ 1 → holders table deleted_system.client ≤ max_virtual_machines)
    × (1 < holders table deleted_system.client + (0 + 0) + 1
        → (c : Client table) × (receive_permit table deleted_system.client ≡ some c))
Reach-holders_example = Reach-holders table deleted_system-Reach
