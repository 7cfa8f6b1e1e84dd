-- ===== src/Common/Runs/Shapes.antt =====
-- What every action of a run satisfies, and what its value does: predicates that stay shut, so that
-- their rules apply by the shape of a run.
use mathlib.Core.List.{List, [], ◌∷◌}
use Prim.Native.String.{String}
use mac_os_vz_kubelet.Common.Lists.{All}
use mac_os_vz_kubelet.Common.Runs.{done, failed, panicked, Outcome, Run, ◌>>=◌, or_wrap}
use mac_os_vz_kubelet.Common.Runs.Stops.{append-All}

-- A predicate on every action of a run, which stays shut so that its rules apply by their shape.
pub record Only {Act A : Type 0} (P : Act → Type 0) (m : Run Act A) : Type 0 where
  pub every : All P m.0

-- A predicate on the value of a run that is done.
abbrev pub Result : {A : Type 0} → (A → Type 0) → Outcome A → Type 0
Result Q (done a) = Q a
Result Q _ = Unit

pub record Gives {Act A : Type 0} (Q : A → Type 0) (m : Run Act A) : Type 0 where
  pub result : Result Q m.1

module _ {Act : Type 0} where
  pub Only-bind :
      {A B : Type 0} {P : Act → Type 0} (m : Run Act A) (f : A → Run Act B)
      → Only P m
      → ((a : A) → Only P (f a))
      → Only P (m >>= f)
  unfolding ◌>>=◌
  Only-bind {P} (acts, done a) f h k = record {
    every = append-All P acts (f a).0 h.every (k a).every;
  }
  Only-bind (acts, failed e) f h k = record { every = h.every }
  Only-bind (acts, panicked) f h k = record { every = h.every }

  pub Only-wrap :
      {A : Type 0} {P : Act → Type 0} (s : String) (m : Run Act A) → Only P m → Only P (or_wrap s m)
  unfolding or_wrap
  Only-wrap s m h = record { every = h.every }

  pub Only-none : {A : Type 0} {P : Act → Type 0} (r : Outcome A) → Only P ([], r)
  Only-none r = record { every = tt }

  pub Only-one :
      {A : Type 0} {P : Act → Type 0} (act : Act) (r : Outcome A) → P act → Only P (act ∷ [], r)
  Only-one act r h = record { every = (h, tt) }

  pub Gives-bind :
      {A B : Type 0} {P : A → Type 0} {Q : B → Type 0} (m : Run Act A) (f : A → Run Act B)
      → Gives P m
      → ((a : A) → P a → Gives Q (f a))
      → Gives Q (m >>= f)
  unfolding ◌>>=◌
  Gives-bind (acts, done a) f h k = record { result = (k a h.result).result }
  Gives-bind (acts, failed e) f h k = record { result = tt }
  Gives-bind (acts, panicked) f h k = record { result = tt }

  pub Gives-last :
      {A B : Type 0} {Q : B → Type 0} (m : Run Act A) (f : A → Run Act B)
      → ((a : A) → Gives Q (f a))
      → Gives Q (m >>= f)
  unfolding ◌>>=◌
  Gives-last (acts, done a) f k = record { result = (k a).result }
  Gives-last (acts, failed e) f k = record { result = tt }
  Gives-last (acts, panicked) f k = record { result = tt }

  pub Gives-wrap :
      {A : Type 0} {Q : A → Type 0} (s : String) (m : Run Act A) → Gives Q m → Gives Q (or_wrap s m)
  unfolding or_wrap
  Gives-wrap s (acts, done a) h = record { result = h.result }
  Gives-wrap s (acts, failed e) h = record { result = tt }
  Gives-wrap s (acts, panicked) h = record { result = tt }

  pub Gives-done :
      {A : Type 0} {Q : A → Type 0} (acts : List Act) (a : A) → Q a → Gives Q (acts, done a)
  Gives-done acts a h = record { result = h }
