-- ===== src/PostStart/Polling.antt =====
-- How the wait for SSH ends, and what its error says.
use mac_os_vz_kubelet.Common.{
  String, ◌<>◌, ◌≡◌, refl, sym, ap, ◌∙◌, subst, Bool, true, false, Option, none, some, List, [],
  ◌∷◌, ◌++◌, map, All, GoError, canceled, deadline_exceeded, wrap, join, arith, Bool-cases, inl,
  inr,
}
use mac_os_vz_kubelet.PostStart.{
  Round, probe, expired, removed, Library, is_terminal, poll_rounds, named_cap, joined_error,
  poll_ssh_ready, after_poll,
}

-- What the documentation of errors.Is says of an error, of one that wraps it, and of errors.Join.
pub record IsLaws (lib : Library) : Type 0 where
  pub is_self : (e : GoError) → lib.is e e ≡ true
  pub is_wrap : (s : String) (e x : GoError) → lib.is e x ≡ true → lib.is (wrap s e) x ≡ true
  pub is_join_left : (a b x : GoError) → lib.is a x ≡ true → lib.is (join a b) x ≡ true
  pub is_join_right : (a b x : GoError) → lib.is b x ≡ true → lib.is (join a b) x ≡ true

abbrev pub failures : List GoError → List Round
failures = map (λ e. probe (some e))

abbrev pub last_or : Option GoError → List GoError → Option GoError
last_or last [] = last
last_or last (e ∷ es) = last_or (some e) es

module _ (lib : Library) where
  -- Whether a round ends the wait.
  abbrev pub ends : Round → Bool
  ends (probe none) = true
  ends (probe (some e)) = is_terminal lib e
  ends expired = true
  ends removed = true

  -- An error in which errors.Is finds a cause, and the last failure of a probe.
  abbrev pub Tells : Option GoError → GoError → Option (Option GoError) → Type 0
  Tells last cause result =
      (e : GoError) × (result ≡ some (some e))
      × (lib.is e cause ≡ true)
      × ((l : GoError) → last ≡ some l → lib.is e l ≡ true)

  abbrev pub Explains : Round → Option GoError → Option (Option GoError) → Type 0
  Explains (probe none) last result = result ≡ some none
  Explains (probe (some t)) last result =
      (e : GoError) × (result ≡ some (some e)) × (lib.is e t ≡ true)
  Explains expired last result = Tells last deadline_exceeded result
  Explains removed last result = Tells last canceled result

  poll_rounds-failures :
      (last : Option GoError) (es : List GoError) (rounds : List Round)
      → All (λ e. is_terminal lib e ≡ false) es
      → poll_rounds lib last (failures es ++ rounds) ≡ poll_rounds lib (last_or last es) rounds
  unfolding poll_rounds
  poll_rounds-failures last [] rounds h = refl
  poll_rounds-failures last (e ∷ es) rounds (n, h) =
      rw n (poll_rounds-failures (some e) es rounds h)

  module _ (laws : IsLaws lib) where
    joined_error_lem :
        (last : Option GoError) (e : GoError)
        → (j : GoError) × (joined_error lib last (some e) ≡ some j)
          × ((x : GoError) → lib.is e x ≡ true → lib.is j x ≡ true)
          × ((l : GoError) → last ≡ some l → lib.is j l ≡ true)
    joined_error_lem none e = (e, refl, λ x h. h, λ l h. absurd (ground arith))
    joined_error_lem (some m) e = elim (Bool-cases (lib.is e m)) [
      | inl f ↦ (e, rw f refl, λ x h. h, λ l h. ground (arith, f))
      | inr f ↦ (
        join m e,
        rw f refl,
        λ x h. laws.is_join_right m e x h,
        λ l h. laws.is_join_left m e l (ground (arith, laws.is_self m)),
      )
    ]

    named_cap_lem :
        (e : GoError)
        → (n : GoError) × (named_cap lib (some e) ≡ some n)
          × ((x : GoError) → lib.is e x ≡ true → lib.is n x ≡ true)
    named_cap_lem e = elim (Bool-cases (lib.is e deadline_exceeded)) [
      | inl f ↦ (
        wrap ("SSH readiness wait expired after " <> lib.cap) e,
        rw f refl,
        λ x h. laws.is_wrap _ e x h,
      )
      | inr f ↦ (e, rw f refl, λ x h. h)
    ]

    ended_lem :
        (last : Option GoError) (e : GoError)
        → Tells last e (some (joined_error lib last (named_cap lib (some e))))
    ended_lem last e =
        let (n, p, f) = named_cap_lem e in
        let (j, q, g, k) = joined_error_lem last n in
        (j, ap some (ap (joined_error lib last) p ∙ q), g e (f e (laws.is_self e)), k)

    ended_round :
        (es : List GoError) (r : Round) (rest : List Round)
        → ends r ≡ true
        → Explains r
            (last_or none es)
            (after_poll lib (poll_rounds lib (last_or none es) (r ∷ rest)))
    unfolding poll_rounds
    ended_round es (probe none) rest t = refl
    ended_round es (probe (some e)) rest t =
        let (j, p, f, k) = ended_lem (some e) e in rw t (j, p, f)
    ended_round es expired rest t = ended_lem (last_or none es) deadline_exceeded
    ended_round es removed rest t = ended_lem (last_or none es) canceled

    -- The wait goes on over the failures of the probe that are not terminal, whatever they are, and
    -- ends with the first other round. It succeeds with a probe that succeeds, and fails otherwise,
    -- with an error in which errors.Is finds the terminal failure, or both the end of the context and
    -- the last failure of a probe.
    pub poll_ssh_ready-Explains :
        (es : List GoError) (r : Round) (rest : List Round)
        → All (λ e. is_terminal lib e ≡ false) es
        → ends r ≡ true
        → Explains r (last_or none es) (poll_ssh_ready lib (failures es ++ r ∷ rest))
    unfolding poll_ssh_ready
    poll_ssh_ready-Explains es r rest h t =
        subst (Explains r (last_or none es))
          (sym (ap (after_poll lib) (poll_rounds-failures none es (r ∷ rest) h)))
          (ended_round es r rest t)
