-- ===== src/SshConn/Examples.antt =====
-- The theorems on the SSH connection at concrete connections.
use mac_os_vz_kubelet.Common.{
  String, Bool, ◌==◌, text_comparable, if◌then◌else◌, inl, invalid_input, NamespacedName,
  namespaced_name_comparable, ◌≡◌, refl, true, false, none, some, [], ◌∷◌, GoError, text, ◌⊎◌, inr,
}
use mac_os_vz_kubelet.Store.Assoc.{assoc_map}
use mac_os_vz_kubelet.Settings.{Texts, ssh_dial_timeout}
use mac_os_vz_kubelet.Resource.VirtualMachine.{VzState, ip_address}
use mac_os_vz_kubelet.MacosClient.VmData.{VmMap, VirtualMachineInfo, load}
use mac_os_vz_kubelet.PostStart.{Library}
use mac_os_vz_kubelet.SshConn.Dialing.{SshLibrary, password, ssh_dial_func}
use mac_os_vz_kubelet.SshConn.Dialing.Methods.{Dials, ssh_dial_func_lem}
use mac_os_vz_kubelet.SshConn.{Connection, client_for_session, run_dial, replace_client, join_dial}
use mac_os_vz_kubelet.SshConn.Lifecycle.{
  World, Reach, start, next, asked, dialed, listed, Reach-clients,
}

-- A dial that an asking session has started has given the client 5.
abbrev connected : Connection
connected = record { client = some 5; keepalive = some 5; closed = false; pending = none }

abbrev dialed_world : World
dialed_world = record { conn = connected; clients = 5 ∷ []; keepalives = 5 ∷ []; dials = [] }

dialed_world-Reach : Reach dialed_world
unfolding client_for_session replace_client join_dial run_dial
dialed_world-Reach = next (next start (asked none 1)) (dialed 1 (inr 5) refl)

Reach-clients_example :
    (dialed_world.clients ≡ listed (some 5))
    × (dialed_world.dials ≡ listed none)
    × ((dialed_world.keepalives ≡ []) ⊎ (dialed_world.keepalives ≡ dialed_world.clients))
    × (connected.closed ≡ true → dialed_world.clients ≡ [])
Reach-clients_example = Reach-clients dialed_world-Reach

abbrev broken : GoError
broken = text "EOF"

-- The environment has a user and a password, and no key.
abbrev environment : String → String
environment v =
    if v == "VZ_SSH_USER" then "admin" else if v == "VZ_SSH_PASSWORD" then "secret" else ""

abbrev texts : Texts
texts = record {
  getenv = environment;
  trim_space = λ s. s;
  quote = λ s. s;
  parse_duration = λ s. inl broken;
}

abbrev library : SshLibrary
library = record {
  texts = texts;
  decode_base64 = λ s. inl broken;
  read_file = λ s. inl broken;
  parse_private_key = λ s. inl broken;
  parse_private_key_with_passphrase = λ k s. inl broken;
  split_comma = λ s. s ∷ [];
}

abbrev is_invalid : GoError → Bool
is_invalid (invalid_input _) = true
is_invalid _ = false

abbrev polls : Library
polls = record {
  is_invalid_input = is_invalid;
  contains = λ e s. false;
  is = λ e x. false;
  cap = "5m0s";
}

abbrev machines : VmMap
machines = assoc_map

abbrev key : NamespacedName
key = record { namespace = "default"; name = "a" }

-- A virtual machine whose instance has an address.
abbrev info : VirtualMachineInfo
info = record {
  ref = "image";
  resource = record {
    env = [];
    instance_ptr = some (record {
      ip_address = "10.0.0.7";
      created_at = 1;
      started_at = none;
      finished_at = none;
      vz_state = VzState.vz_running;
    });
    err = none;
    post_start_finished = 0;
  };
  download_cancel_func = none;
  permit_acquired = true;
  ssh_conn = some 5;
}

ssh_dial_func_lem_example : Dials library "10.0.0.7" (
  "10.0.0.7:22",
  record {
    user = "admin";
    auth = password "secret" ∷ [];
    timeout = ssh_dial_timeout texts;
    key_exchanges = none;
  },
)
unfolding load ssh_dial_func ip_address
ssh_dial_func_lem_example =
    ssh_dial_func_lem library polls (λ x. refl) machines key ((key, info) ∷ []) info refl
