-- ===== src/Downloader.antt =====
-- pkg/downloader/manager.go: the goroutines that share the download of one reference. Goroutines and
-- states are numbers; `current` is the entry of the reference in the map `downloads`, and `next` the
-- state that the next LoadOrStore would allocate. Each step is one atomic action.
pub mod Counting
pub mod Race
pub mod Download
pub mod Attempts
pub mod Directory
mod Examples
mod DownloadExamples
use mac_os_vz_kubelet.Common.{
  ℕ, suc, ◌+◌, ◌-◌, ◌<◌, ◌≡◌, Bool, true, false, Option, none, some, nat_eq, if◌then◌else◌,
}

-- The struct `state`; `started` is the state of its sync.Once, and `finished` whether `done` is
-- closed.
pub record DownloadState : Type 0 where
  pub subscribers : ℕ
  pub started : Bool
  pub cancelled : Bool
  pub finished : Bool

abbrev pub new_state : DownloadState
new_state = record { subscribers = 0; started = false; cancelled = false; finished = false }

-- Where a call of Download is, with its state: before the call; after LoadOrStore; after the
-- increment; in the `select`; at the deferred function; after a decrement to zero; after the
-- deletion of the reference.
pub data Place : Type 0 where
  outside : Place
  joined counted waiting leaving removing cancelling : ℕ → Place

pub record World : Type 0 where
  pub current : Option ℕ
  pub next : ℕ
  pub states : ℕ → DownloadState
  pub places : ℕ → Place

abbrev pub update {ℓ} : {A : Type ℓ} → (ℕ → A) → ℕ → A → ℕ → A
update f i x j = if nat_eq i j then x else f j

abbrev pub move : ℕ → Place → World → World
move i p w = record w { places = update w.places i p }

abbrev pub put_state : ℕ → DownloadState → World → World
put_state s st w = record w { states = update w.states s st }

-- LoadOrStore
abbrev pub load_or_store_state : ℕ → Option ℕ → World → World
load_or_store_state i (some s) w = move i (joined s) w
load_or_store_state i none w =
    move i (joined w.next)
      (put_state w.next new_state (record w { current = some w.next; next = suc w.next }))

-- The decrement, and the test for zero.
abbrev pub decrement : ℕ → ℕ → World → World
decrement i s w =
    let st = w.states s in
    move i (if nat_eq (st.subscribers - 1) 0 then removing s else outside)
      (put_state s (record st { subscribers = st.subscribers - 1 }) w)

-- The next action of goroutine `i`, which stands at a place. The `select` may end at any time, since
-- the context may.
unfoldable pub act : ℕ → Place → World → World
act i outside w = load_or_store_state i w.current w
act i (joined s) w =
    let st = w.states s in
    move i (counted s) (put_state s (record st { subscribers = st.subscribers + 1 }) w)
act i (counted s) w = move i (waiting s) (put_state s (record (w.states s) { started = true }) w)
act i (waiting s) w = move i (leaving s) w
act i (leaving s) w = decrement i s w
act i (removing s) w = move i (cancelling s) (record w { current = none })
act i (cancelling s) w = move i outside (put_state s (record (w.states s) { cancelled = true }) w)

unfoldable pub step : ℕ → World → World
unfolding act
step i w = act i (w.places i) w

-- The end of startDownload, which also cancels the context.
abbrev pub finish : ℕ → World → World
finish s w = put_state s (record (w.states s) { finished = true; cancelled = true }) w

-- The worlds that `k` goroutines come to.
pub data Reach (k : ℕ) : World → Type 0 where
  start :
      Reach k (record { current = none; next = 0; states = λ s. new_state; places = λ i. outside })
  stepped : {w : World} (i : ℕ) → Reach k w → i < k → Reach k (step i w)
  ended : {w : World} (s : ℕ) → Reach k w → (w.states s).started ≡ true → Reach k (finish s w)
