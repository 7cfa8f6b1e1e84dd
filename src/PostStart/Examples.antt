-- ===== src/PostStart/Examples.antt =====
-- The theorem on the wait at two failures before the cap.
use mac_os_vz_kubelet.Common.{
  ◌≡◌, refl, Bool, true, false, ◌||◌, none, List, [], ◌∷◌, ◌++◌, GoError, text, not_found,
  invalid_input, canceled, deadline_exceeded, code_exit_error, wrap, join, error_text, ◌==◌,
  text_comparable, arith, same_refl,
}
use mac_os_vz_kubelet.PostStart.{expired, Library, poll_ssh_ready}
use mac_os_vz_kubelet.PostStart.Polling.{
  IsLaws, failures, last_or, Explains, poll_ssh_ready-Explains,
}

-- Errors of the same text are taken for one, and those inside are looked through.
abbrev is : GoError → GoError → Bool
is (wrap s e) x = (error_text (wrap s e) == error_text x) || is e x
is (join a b) x = (error_text (join a b) == error_text x) || (is a x || is b x)
is e x = error_text e == error_text x

is_self : (e : GoError) → is e e ≡ true
is_self (wrap s e) = ground (arith, same_refl (error_text (wrap s e)))
is_self (join a b) = ground (arith, same_refl (error_text (join a b)))
is_self (text s) = same_refl s
is_self (not_found s) = same_refl s
is_self (invalid_input e) = same_refl (error_text e)
is_self canceled = refl
is_self deadline_exceeded = refl
is_self (code_exit_error e code) = same_refl (error_text e)

abbrev library : Library
library = record { is_invalid_input = λ e. false; contains = λ e s. false; is = is; cap = "5m0s" }

laws : IsLaws library
laws = record {
  is_self = is_self;
  is_wrap = λ s e x h. ground (arith, h);
  is_join_left = λ a b x h. ground (arith, h);
  is_join_right = λ a b x h. ground (arith, h);
}

abbrev refused : List GoError
refused = text "no route to host" ∷ text "connection refused" ∷ []

poll_ssh_ready-Explains_example :
    Explains library expired
      (last_or none refused)
      (poll_ssh_ready library (failures refused ++ expired ∷ []))
poll_ssh_ready-Explains_example =
    poll_ssh_ready-Explains library laws refused expired [] (refl, (refl, tt)) refl
