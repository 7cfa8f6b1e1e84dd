-- ===== src/Vm/Life.antt =====
-- Laws of the instance of a virtual machine.
use mac_os_vz_kubelet.Common.{
  ℕ, String, ◌≡◌, refl, Bool, true, false, Option, none, some, List, [], ◌∷◌, ◌++◌, is_blank,
  is_some, if◌then◌else◌, GoError, ◌⊎◌, inl, inr, Bool-cases,
}
use mac_os_vz_kubelet.Resource.VirtualMachine.{
  VirtualMachineInstance, vz_starting, vz_running, vz_stopping, vz_stopped, vz_other,
}
use mac_os_vz_kubelet.Vm.Instance.{
  Instance, InstanceAction, start_vm, stop_vm, StartAnswers, retrieve_ip_address, by_arp,
  by_capture, end_start, start_with, start, StateEvent, changed, closed, canceled_context,
  handle_state_changes, set_ip,
}

-- The address that a start finds: that of the capture on the bridge, if there is one, else that of the
-- table of arp.
abbrev pub address_found : String → GoError ⊎ String → GoError ⊎ String → GoError ⊎ String
address_found interface capture arp =
    if is_blank interface then arp else elim capture [ inl _ ↦ arp | inr ip ↦ inr ip ]

-- Whether a start that has started the machine stops it again.
abbrev pub stops : List InstanceAction → Bool
stops [] = false
stops (stop_vm ∷ acts) = true
stops (_ ∷ acts) = stops acts

-- How a start ends: with the error of the framework and nothing else done; with the address in the
-- instance, and the machine running on; or with the machine stopped, an error, and no address.
abbrev pub Ends :
    Option GoError
    → GoError ⊎ String
    → Instance
    → List InstanceAction × Option GoError × Instance
    → Type 0
Ends (some e) found i r = r ≡ (start_vm ∷ [], some e, i)
Ends none (inr ip) i r =
    (r.1 ≡ none) × (r.2 ≡ set_ip ip (record i { has_cancel = true })) × (stops r.0 ≡ false)
Ends none (inl e) i r =
    (is_some r.1 ≡ true) × (r.2 ≡ record i { has_cancel = true }) × (stops r.0 ≡ true)

by_capture-Ends :
    (c a : GoError ⊎ String) (interface : String) (mac : List ℕ) (i : Instance)
    → Ends none
        (elim c [ inl _ ↦ a | inr ip ↦ inr ip ])
        i
        (end_start
          (start_vm ∷ (by_capture interface mac c a).0)
          (by_capture interface mac c a).1
          (record i { has_cancel = true }))
by_capture-Ends (inr ip) a interface mac i = (refl, refl, refl)
by_capture-Ends (inl e) (inr ip) interface mac i = (refl, refl, refl)
by_capture-Ends (inl e) (inl f) interface mac i = (refl, refl, refl)

by_arp-Ends :
    (a : GoError ⊎ String) (mac : List ℕ) (i : Instance)
    → Ends none a i
        (end_start (start_vm ∷ (by_arp mac a).0) (by_arp mac a).1 (record i { has_cancel = true }))
by_arp-Ends (inr ip) mac i = (refl, refl, refl)
by_arp-Ends (inl f) mac i = (refl, refl, refl)

start_with-Ends :
    (o : Option GoError) (a : StartAnswers) (i : Instance)
    → Ends o (address_found i.config.network_interface a.capture a.arp) i (start_with o a i)
unfolding retrieve_ip_address
start_with-Ends (some e) a i = refl
start_with-Ends none a i = elim (Bool-cases (is_blank i.config.network_interface)) [
  | inl h ↦ rw h (by_arp-Ends a.arp i.mac_addr i)
  | inr h ↦ rw h (by_capture-Ends a.capture a.arp i.config.network_interface i.mac_addr i)
]

-- A start ends in one of three ways: the framework refuses it, and nothing else is done; an address is
-- found, by the capture or else in the table of arp, and the machine runs on with it; or none is
-- found, and the machine is stopped and an error returned.
pub start-Ends :
    (a : StartAnswers) (i : Instance)
    → Ends a.start (address_found i.config.network_interface a.capture a.arp) i (start a i)
unfolding start
start-Ends a i = start_with-Ends a.start a i

-- Nothing after the end of the context is recorded, a stop of the machine least of all.
handle_canceled :
    (before after : List StateEvent) (v : VirtualMachineInstance)
    → handle_state_changes (before ++ canceled_context ∷ after) v ≡ handle_state_changes before v
unfolding handle_state_changes
handle_canceled [] after v = refl
handle_canceled (closed ∷ before) after v = refl
handle_canceled (canceled_context ∷ before) after v = refl
handle_canceled (changed vz_stopped now ∷ before) after v = refl
handle_canceled (changed vz_running now ∷ before) after v = handle_canceled before after _
handle_canceled (changed vz_starting now ∷ before) after v = handle_canceled before after v
handle_canceled (changed vz_stopping now ∷ before) after v = handle_canceled before after v
handle_canceled (changed (vz_other n) now ∷ before) after v = handle_canceled before after v
