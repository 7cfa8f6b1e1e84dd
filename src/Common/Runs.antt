-- ===== src/Common/Runs.antt =====
-- Code that acts on the world: what it did, in order, and how it ended. The answers of the world are
-- arguments.
use mac_os_vz_kubelet.Common.Tests.{Option-cases}
use mathlib.Core.Path.{subst, refl, sym, ◌≡◌, ap, ◌∙◌}
use mathlib.Core.Logic.{◌⊎◌, inl, inr}
use mathlib.Core.Option.{Option, none, some}
use mathlib.Core.List.{append_assoc, List, [], ◌∷◌, ◌++◌}
use Prim.Native.String.{String}
use mac_os_vz_kubelet.Common.Errors.{GoError, wrap}
use mac_os_vz_kubelet.Common.Lists.{All}
pub mod Stops
pub mod Shapes

-- `panicked` is the dereference of a nil pointer.
pub data Outcome (A : Type 0) : Type 0 where
  done : A → Outcome A
  failed : GoError → Outcome A
  panicked : Outcome A

abbrev pub Run : Type 0 → Type 0 → Type 0
Run Act A = List Act × Outcome A

-- The outcome of a call that returns an error, or a value and an error.
abbrev pub ended : Option GoError → Outcome Unit
ended none = done tt
ended (some e) = failed e

abbrev pub ended_with : {A : Type 0} → GoError ⊎ A → Outcome A
ended_with (inl e) = failed e
ended_with (inr a) = done a

-- fmt.Errorf with %w around the error of a run.
abbrev pub wrapped : {A : Type 0} → String → Outcome A → Outcome A
wrapped s (done a) = done a
wrapped s (failed e) = failed (wrap s e)
wrapped s panicked = panicked

module _ {Act : Type 0} where
  abbrev pub return : {A : Type 0} → A → Run Act A
  return a = ([], done a)

  -- What comes after a part of a run that is over.
  abbrev pub after : {A B : Type 0} → List Act → Outcome A → (A → Run Act B) → Run Act B
  after acts (done a) f = (acts ++ (f a).0, (f a).1)
  after acts (failed e) f = (acts, failed e)
  after acts panicked f = (acts, panicked)

  infixl 5 ◌>>=◌ ◌>>◌
  unfoldable pub ◌>>=◌ : {A B : Type 0} → Run Act A → (A → Run Act B) → Run Act B
  m >>= f = after m.0 m.1 f

  abbrev pub ◌>>◌ : {B : Type 0} → Run Act Unit → Run Act B → Run Act B
  m >> k = m >>= λ _. k

  abbrev pub fail : {A : Type 0} → GoError → Run Act A
  fail e = ([], failed e)

  abbrev pub panic : {A : Type 0} → Run Act A
  panic = ([], panicked)

  -- A call that acts, and one that does not.
  abbrev pub perform : (Act → Option GoError) → Act → Run Act Unit
  perform world act = (act ∷ [], ended (world act))

  abbrev pub ask : {A : Type 0} → GoError ⊎ A → Run Act A
  ask answer = ([], ended_with answer)

  unfoldable pub or_wrap : {A : Type 0} → String → Run Act A → Run Act A
  or_wrap s m = (m.0, wrapped s m.1)

  -- The outcome of a run, when the parts of it are known.
  pub after-done :
      {A B : Type 0} (m : Run Act A) (f : A → Run Act B) (acts more : List Act) (a : A)
      (r : Outcome B)
      → m ≡ (acts, done a)
      → f a ≡ (more, r)
      → (m >>= f) ≡ (acts ++ more, r)
  unfolding ◌>>=◌
  after-done m f acts more a r h k = ap (λ n. n >>= f) h ∙ ap (λ n. (acts ++ n.0, n.1)) k
