-- ===== src/MacosClient/Permits/Schedule.antt =====
-- The goroutines of the client as interleaved steps: what becomes of the tokens, however they are
-- scheduled, the drain of a release that finds no entry and the deletion of an entry with a permit
-- included.
use mac_os_vz_kubelet.Common.{
  ℕ, suc, ◌+◌, ◌-◌, ◌<◌, ◌≤◌, ◌≡◌, ◌≢◌, refl, true, false, Option, none, some, NamespacedName,
  GoError, arith, namespaced_name_comparable, Option-cases, inl, inr, if◌then◌else◌,
}
use mac_os_vz_kubelet.MacosClient.VmData.{
  VirtualMachineInfo, VmMap, load, update, load_or_store, all, delete,
}
use mac_os_vz_kubelet.MacosClient.VmData.Laws.{
  load_or_store_found, count-load_or_store, count-delete,
}
use mac_os_vz_kubelet.MacosClient.Permits.{
  Client, max_virtual_machines, receive_permit, send_permit, mark_permit_acquired, clear_permit,
  drain_permit,
}
use mac_os_vz_kubelet.MacosClient.Permits.Balance.{
  is_holder, holders, holders-update, mark_permit_acquired-holders, clear_permit-holders,
}

-- How many permits the entry of a key has.
abbrev pub held : Option VirtualMachineInfo → ℕ
held none = 0
held (some info) = if info.permit_acquired then 1 else 0

module _ (m : VmMap) where
  -- The client with its goroutines: those that have sent a token and not yet marked an entry, those
  -- that have to take a token back, since they have cleared the permit of an entry or failed to mark
  -- one, and those whose release has found no entry and that have still to drain the channel. Then how
  -- many permits have gone with an entry that was deleted, and how many tokens the drains have taken.
  pub record System : Type 0 where
    pub client : Client m
    pub claiming : ℕ
    pub clearing : ℕ
    pub draining : ℕ
    pub lost : ℕ
    pub drained_tokens : ℕ

  -- An update that leaves the permit of the entry alone, as all but those of the permits do.
  abbrev pub KeepsPermit : (VirtualMachineInfo → VirtualMachineInfo) → Type 0
  KeepsPermit f = (info : VirtualMachineInfo) → (f info).permit_acquired ≡ info.permit_acquired

  -- One atomic step of some goroutine, on any key. A release of an entry without a permit changes
  -- nothing.
  pub data Step (s t : System) : Type 0 where
    sent :
        (c : Client m)
        → send_permit m s.client ≡ some c
        → t ≡ record s { client = c; claiming = suc s.claiming }
        → Step s t
    claimed :
        (key : NamespacedName) (n : ℕ) (c : Client m)
        → s.claiming ≡ suc n
        → mark_permit_acquired m key s.client ≡ (none, c)
        → t ≡ record s { client = c; claiming = n }
        → Step s t
    refused :
        (key : NamespacedName) (n : ℕ) (e : GoError) (c : Client m)
        → s.claiming ≡ suc n
        → mark_permit_acquired m key s.client ≡ (some e, c)
        → t ≡ record s { client = c; claiming = n; clearing = suc s.clearing }
        → Step s t
    cleared :
        (key : NamespacedName) (info : VirtualMachineInfo)
        → load m key s.client.vms ≡ some info
        → info.permit_acquired ≡ true
        → t ≡ record s { client = clear_permit m key s.client; clearing = suc s.clearing }
        → Step s t
    received :
        (n : ℕ) (c : Client m)
        → s.clearing ≡ suc n
        → receive_permit m s.client ≡ some c
        → t ≡ record s { client = c; clearing = n }
        → Step s t
    missed :
        (key : NamespacedName)
        → load m key s.client.vms ≡ none
        → t ≡ record s { draining = suc s.draining }
        → Step s t
    drained :
        (n : ℕ)
        → s.draining ≡ suc n
        → t ≡ record s {
          client = drain_permit m s.client;
          draining = n;
          drained_tokens =
              s.drained_tokens + (s.client.permits - (drain_permit m s.client).permits);
        }
        → Step s t
    created :
        (key : NamespacedName) (info : VirtualMachineInfo)
        → info.permit_acquired ≡ false
        → t ≡ record s {
          client = record (s.client) { vms = (load_or_store m key info s.client.vms).1 };
        }
        → Step s t
    changed :
        (key : NamespacedName) (f : VirtualMachineInfo → VirtualMachineInfo)
        → KeepsPermit f
        → t ≡ record s { client = record (s.client) { vms = (update m key f s.client.vms).1 } }
        → Step s t
    deleted :
        (key : NamespacedName)
        → t ≡ record s {
          client = record (s.client) { vms = delete m key s.client.vms };
          lost = s.lost + held (load m key s.client.vms);
        }
        → Step s t

  pub data Reach (s : System) : System → Type 0 where
    here : Reach s s
    next : {t u : System} → Reach s t → Step t u → Reach s u

  -- What holds between the steps: every token that was sent is that of a holder, on its way, lost or
  -- drained, and the channel is never over its size.
  abbrev pub IsConserved : System → Type 0
  IsConserved s =
      (s.client.permits + s.drained_tokens
        ≡ holders m s.client + (s.claiming + s.clearing) + s.lost)
      × (s.client.permits ≤ max_virtual_machines)

  -- The client of NewMacOSClient, with no goroutine.
  abbrev pub new_system : System
  new_system = record {
    client = record { vms = m.new; permits = 0 };
    claiming = 0;
    clearing = 0;
    draining = 0;
    lost = 0;
    drained_tokens = 0;
  }

  holders-load_or_store :
      (key : NamespacedName) (info : VirtualMachineInfo) (c : Client m)
      → info.permit_acquired ≡ false
      → holders m (record c { vms = (load_or_store m key info c.vms).1 }) ≡ holders m c
  unfolding holders
  holders-load_or_store key info c h = elim (Option-cases (load m key c.vms)) [
    | inl e ↦ ground (arith, count-load_or_store m is_holder key info c.vms e)
    | inr (w, e) ↦ rw (load_or_store_found m key info w c.vms e) refl
  ]

  holders_kept :
      (key : NamespacedName) (f : VirtualMachineInfo → VirtualMachineInfo) (c : Client m)
      → KeepsPermit f
      → holders m (record c { vms = (update m key f c.vms).1 }) ≡ holders m c
  holders_kept key f c h = elim (Option-cases (load m key c.vms)) [
    | inl e ↦ ground (arith, holders-update m key f c)
    | inr (w, e) ↦ ground (arith, holders-update m key f c, h w)
  ]

  holders_deleted :
      (key : NamespacedName) (c : Client m)
      → holders m (record c { vms = delete m key c.vms }) + held (load m key c.vms) ≡ holders m c
  unfolding holders
  holders_deleted key c = elim (Option-cases (load m key c.vms)) [
    | inl e ↦ ground (arith, count-delete m is_holder key c.vms)
    | inr (w, e) ↦ ground (arith, count-delete m is_holder key c.vms)
  ]

  clear_permit_held :
      (key : NamespacedName) (c : Client m) (info : VirtualMachineInfo)
      → load m key c.vms ≡ some info
      → info.permit_acquired ≡ true
      → (suc (holders m (clear_permit m key c)) ≡ holders m c)
        × ((clear_permit m key c).permits ≡ c.permits)
  unfolding clear_permit
  clear_permit_held key c info e h = (ground (arith, clear_permit-holders m key c), refl)

  sent_lem :
      (c c' : Client m)
      → send_permit m c ≡ some c'
      → (c'.permits ≡ suc c.permits)
        × (c'.permits ≤ max_virtual_machines)
        × (holders m c' ≡ holders m c)
  unfolding send_permit holders
  sent_lem c c' e = ground arith

  received_lem :
      (c c' : Client m)
      → receive_permit m c ≡ some c'
      → (suc c'.permits ≡ c.permits) × (holders m c' ≡ holders m c)
  unfolding receive_permit holders
  received_lem c c' e = ground arith

  drained_lem :
      (c : Client m)
      → ((drain_permit m c).permits ≤ c.permits) × (holders m (drain_permit m c) ≡ holders m c)
  unfolding drain_permit receive_permit holders
  drained_lem c = ground arith

  marked_lem :
      (key : NamespacedName) (c c' : Client m) (r : Option GoError)
      → mark_permit_acquired m key c ≡ (r, c')
      → (c'.permits ≡ c.permits)
        × (r ≡ none → holders m c' ≡ suc (holders m c))
        × (r ≢ none → holders m c' ≡ holders m c)
  marked_lem key c c' r e =
      let (p, h, k) = mark_permit_acquired-holders m key c in ground (arith, p, h, k)

  -- Every step of every goroutine keeps the account.
  Step-IsConserved : {s t : System} → Step s t → IsConserved s → IsConserved t
  Step-IsConserved {s} (sent c e t) b = rw t (ground (arith, sent_lem s.client c e))
  Step-IsConserved {s} (claimed key n c k e t) b =
      let (p, h, _) = marked_lem key s.client c none e in rw t (omega (arith, p, h refl, k, b))
  Step-IsConserved {s} (refused key n x c k e t) b =
      let (p, _, h) = marked_lem key s.client c (some x) e in
      rw t (omega (arith, p, h (λ e. cc), k, b))
  Step-IsConserved {s} (cleared key info e h t) b =
      rw t (omega (arith, clear_permit_held key s.client info e h, b))
  Step-IsConserved {s} (received n c k e t) b =
      rw t (omega (arith, received_lem s.client c e, k, b))
  Step-IsConserved {s} (missed key e t) b = rw t b
  Step-IsConserved {s} (drained n k t) b = rw t (omega (arith, drained_lem s.client, b))
  Step-IsConserved {s} (created key info h t) b =
      rw t (omega (arith, holders-load_or_store key info s.client h, b))
  Step-IsConserved {s} (changed key f h t) b =
      rw t (omega (arith, holders_kept key f s.client h, b))
  Step-IsConserved {s} (deleted key t) b = rw t (omega (arith, holders_deleted key s.client, b))

  new_system-IsConserved : IsConserved new_system
  unfolding holders all
  new_system-IsConserved = (ground (arith, m.count-new is_holder), omega arith)

  Reach-IsConserved : {s : System} → Reach new_system s → IsConserved s
  Reach-IsConserved here = new_system-IsConserved
  Reach-IsConserved (next r st) = Step-IsConserved st (Reach-IsConserved r)

  receive_permit_ready :
      (c : Client m) → 0 < c.permits → (c' : Client m) × (receive_permit m c ≡ some c')
  unfolding receive_permit
  receive_permit_ready c h = (record c { permits = c.permits - 1 }, ground arith)

  -- However the goroutines interleave: the tokens in the channel and those that the releases of
  -- missing entries have drained are as many as the holders, the tokens on their way and the permits
  -- lost with a deleted entry. So the holders are at most `max_virtual_machines`, and one more for
  -- each drain that took a token for which no permit had been lost; and a goroutine that has still to
  -- take a token back does not block unless the drains have taken all those that are accounted for.
  pub Reach-holders :
      {s : System}
      → Reach new_system s
      → let account = holders m s.client + (s.claiming + s.clearing) + s.lost in
        (s.client.permits + s.drained_tokens ≡ account)
        × (holders m s.client + s.lost ≤ max_virtual_machines + s.drained_tokens)
        × (s.drained_tokens ≤ s.lost → holders m s.client ≤ max_virtual_machines)
        × (s.drained_tokens < account → (c : Client m) × (receive_permit m s.client ≡ some c))
  Reach-holders {s} r =
      let b = Reach-IsConserved r in
      (
        b.0,
        omega (arith, b),
        λ h. omega (arith, b, h),
        λ h. receive_permit_ready s.client (omega (arith, b, h)),
      )
