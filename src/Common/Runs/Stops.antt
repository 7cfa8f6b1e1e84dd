-- ===== src/Common/Runs/Stops.antt =====
-- Runs that stop at the first action that fails.
use mac_os_vz_kubelet.Common.Tests.{Option-cases}
use mathlib.Core.Path.{subst, refl, sym, ◌≡◌, ap, ◌∙◌}
use mathlib.Core.Logic.{◌⊎◌, inl, inr}
use mathlib.Core.Option.{Option, none}
use mathlib.Core.List.{append_assoc, List, [], ◌∷◌, ◌++◌}
use Prim.Native.String.{String}
use mac_os_vz_kubelet.Common.Errors.{GoError}
use mac_os_vz_kubelet.Common.Lists.{All}
use mac_os_vz_kubelet.Common.Runs.{
  done, failed, panicked, Outcome, Run, ended, wrapped, after, ◌>>=◌, fail, perform, ask, or_wrap,
}

abbrev pub AtMostOne : {A : Type 0} → List A → Type 0
AtMostOne (x ∷ y ∷ xs) = ⊥
AtMostOne _ = Unit

pub append-All :
    {A : Type 0} (P : A → Type 0) (xs ys : List A) → All P xs → All P ys → All P (xs ++ ys)
append-All P [] ys h k = k
append-All P (x ∷ xs) ys (h, i) k = (h, append-All P xs ys i k)

module _ {Act : Type 0} where
  module _ (world : Act → Option GoError) where
    abbrev pub Ok : List Act → Type 0
    Ok acts = All (λ c. world c ≡ none) acts

    -- All actions but one at the end have succeeded.
    abbrev pub Broken : List Act → Type 0
    Broken acts =
        (before : List Act) × (last : List Act) × (acts ≡ before ++ last)
        × Ok before
        × AtMostOne last

    -- A run that stops at the first action that fails.
    abbrev pub StopsAs : {A : Type 0} → List Act → Outcome A → Type 0
    StopsAs acts (done a) = Ok acts
    StopsAs acts (failed e) = Broken acts
    StopsAs acts panicked = Broken acts

    abbrev pub Stops : {A : Type 0} → Run Act A → Type 0
    Stops m = StopsAs m.0 m.1

    append-Broken : (xs ys : List Act) → Ok xs → Broken ys → Broken (xs ++ ys)
    append-Broken xs ys h (before, last, split, k, l) = (
      xs ++ before,
      last,
      ap (λ zs. xs ++ zs) split ∙ sym (append_assoc xs before last),
      append-All (λ c. world c ≡ none) xs before h k,
      l,
    )

    pub append-StopsAs :
        {A : Type 0} (xs ys : List Act) (r : Outcome A)
        → Ok xs
        → StopsAs ys r
        → StopsAs (xs ++ ys) r
    append-StopsAs xs ys (done a) h k = append-All (λ c. world c ≡ none) xs ys h k
    append-StopsAs xs ys (failed e) h k = append-Broken xs ys h k
    append-StopsAs xs ys panicked h k = append-Broken xs ys h k

    pub after-Stops :
        {A B : Type 0} (acts : List Act) (r : Outcome A) (f : A → Run Act B)
        → StopsAs acts r
        → ((a : A) → Stops (f a))
        → Stops (after acts r f)
    after-Stops acts (done a) f h k = append-StopsAs acts (f a).0 (f a).1 h (k a)
    after-Stops acts (failed e) f h k = h
    after-Stops acts panicked f h k = h

    pub bind-Stops :
        {A B : Type 0} (m : Run Act A) (f : A → Run Act B)
        → Stops m
        → ((a : A) → Stops (f a))
        → Stops (m >>= f)
    unfolding ◌>>=◌
    bind-Stops m f h k = after-Stops m.0 m.1 f h k

    pub perform-Stops : (act : Act) → Stops (perform world act)
    perform-Stops act = elim (Option-cases (world act)) [
      | inl h ↦ subst (λ o. StopsAs (act ∷ []) (ended o)) (sym h) (h, tt)
      | inr (e, h) ↦ subst (λ o. StopsAs (act ∷ []) (ended o)) (sym h) ([], act ∷ [], refl, tt, tt)
    ]

    pub wrapped-Stops :
        {A : Type 0} (s : String) (acts : List Act) (r : Outcome A)
        → StopsAs acts r
        → StopsAs acts (wrapped s r)
    wrapped-Stops s acts (done a) h = h
    wrapped-Stops s acts (failed e) h = h
    wrapped-Stops s acts panicked h = h

    pub act-Stops : (s : String) (act : Act) → Stops (or_wrap s (perform world act))
    unfolding or_wrap
    act-Stops s act = wrapped-Stops s (act ∷ []) (ended (world act)) (perform-Stops act)

    pub ask-Stops : {A : Type 0} (answer : GoError ⊎ A) → Stops (ask answer)
    ask-Stops (inl e) = ([], [], refl, tt, tt)
    ask-Stops (inr a) = tt

    pub fail-Stops : (A : Type 0) (e : GoError) → Stops {A = A} (fail e)
    fail-Stops A e = ([], [], refl, tt, tt)
