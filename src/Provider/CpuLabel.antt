-- ===== src/Provider/CpuLabel.antt =====
-- internal/utils/apple_cpu.go: the processor's model as the value of a label, for ASCII texts.
use mac_os_vz_kubelet.Common.{
  ℕ, suc, zero, ◌-◌, ◌≤◌, ◌≡◌, refl, Bool, true, false, not, ◌&&◌, ◌||◌, List, [], ◌∷◌, nat_eq, leb,
  if◌then◌else◌, all, length, arith,
}
use mac_os_vz_kubelet.Network.Text.{starts_with, trim, trim_front, trim_back, cons_trimmed}

-- strings.ReplaceAll of a text that is not empty by the empty one; the number counts the characters of
-- an occurrence that are still to be left out.
unfoldable pub remove_all : List ℕ → ℕ → List ℕ → List ℕ
remove_all old skip [] = []
remove_all old (suc skip) (c ∷ cs) = remove_all old skip cs
remove_all old zero (c ∷ cs) =
    let removed = remove_all old (length old - 1) cs in
    let kept = remove_all old zero cs in if starts_with old (c ∷ cs) then removed else c ∷ kept

abbrev pub is_alphanumeric : ℕ → Bool
is_alphanumeric c = (leb 97 c && leb c 122) || (leb 65 c && leb c 90) || (leb 48 c && leb c 57)

-- '_', '-' and '.'
abbrev pub is_separator : ℕ → Bool
is_separator c = nat_eq c 95 || nat_eq c 45 || nat_eq c 46

unfoldable pub is_label_char : ℕ → Bool
is_label_char c = is_alphanumeric c || is_separator c

-- ReplaceAllString of the runs of other characters by one '_'; the flag tells whether one has begun.
unfoldable pub replace_invalid : Bool → List ℕ → List ℕ
replace_invalid in_run [] = []
replace_invalid in_run (c ∷ cs) =
    let rest = replace_invalid (not (is_label_char c)) cs in
    if is_label_char c then c ∷ rest else if in_run then rest else 95 ∷ rest

-- "Apple "
abbrev pub apple : List ℕ
apple = 65 ∷ 112 ∷ 112 ∷ 108 ∷ 101 ∷ 32 ∷ []

unfoldable pub sanitize_apple_cpu_model_for_k8s_label : List ℕ → List ℕ
unfolding remove_all replace_invalid is_label_char
sanitize_apple_cpu_model_for_k8s_label name =
    trim is_separator (replace_invalid false (remove_all apple 0 name))

underscore : is_label_char 95 ≡ true
unfolding is_label_char
underscore = refl

replace_invalid_lem :
    (in_run : Bool) (s : List ℕ) → all is_label_char (replace_invalid in_run s) ≡ true
unfolding replace_invalid
replace_invalid_lem in_run [] = refl
replace_invalid_lem in_run (c ∷ s) =
    ground (arith, replace_invalid_lem (not (is_label_char c)) s, underscore)

length-replace_invalid : (in_run : Bool) (s : List ℕ) → length (replace_invalid in_run s) ≤ length s
unfolding replace_invalid
length-replace_invalid in_run [] = omega arith
length-replace_invalid in_run (c ∷ s) =
    ground (arith, length-replace_invalid (not (is_label_char c)) s)

length-remove_all : (old : List ℕ) (n : ℕ) (s : List ℕ) → length (remove_all old n s) ≤ length s
unfolding remove_all
length-remove_all old n [] = omega arith
length-remove_all old (suc n) (c ∷ s) = omega (arith, length-remove_all old n s)
length-remove_all old zero (c ∷ s) =
    ground (arith, length-remove_all old (length old - 1) s, length-remove_all old zero s)

-- A list begins with a character outside of a set, or ends with one, if it is not empty.
abbrev pub begins_outside : (ℕ → Bool) → List ℕ → Bool
begins_outside cut [] = true
begins_outside cut (c ∷ cs) = not (cut c)

abbrev pub ends_outside : (ℕ → Bool) → List ℕ → Bool
ends_outside cut [] = true
ends_outside cut (c ∷ []) = not (cut c)
ends_outside cut (c ∷ d ∷ ds) = ends_outside cut (d ∷ ds)

module _ (cut p : ℕ → Bool) where
  -- What the sides of a trim keep of a list.
  abbrev Kept : List ℕ → List ℕ → Type 0
  Kept s t = (all p s ≡ true → all p t ≡ true) × (length t ≤ length s)

  cons_trimmed_lem :
      (c : ℕ) (t : List ℕ)
      → Kept (c ∷ t) (cons_trimmed cut c t)
        × (ends_outside cut t ≡ true → ends_outside cut (cons_trimmed cut c t) ≡ true)
        × (begins_outside cut (c ∷ t) ≡ true → begins_outside cut (cons_trimmed cut c t) ≡ true)
  cons_trimmed_lem c [] = ground arith
  cons_trimmed_lem c (d ∷ t) = ground arith

  trim_front_lem :
      (s : List ℕ) → Kept s (trim_front cut s) × (begins_outside cut (trim_front cut s) ≡ true)
  trim_front_lem [] = ground arith
  trim_front_lem (c ∷ s) = ground (arith, trim_front_lem s)

  trim_back_lem :
      (s : List ℕ)
      → Kept s (trim_back cut s)
        × (ends_outside cut (trim_back cut s) ≡ true)
        × (begins_outside cut s ≡ true → begins_outside cut (trim_back cut s) ≡ true)
  trim_back_lem [] = ground arith
  trim_back_lem (c ∷ s) = ground (arith, trim_back_lem s, cons_trimmed_lem c (trim_back cut s))

  trim_lem :
      (s : List ℕ)
      → Kept s (trim cut s)
        × (begins_outside cut (trim cut s) ≡ true)
        × (ends_outside cut (trim cut s) ≡ true)
  unfolding trim
  trim_lem s = ground (arith, trim_front_lem s, trim_back_lem (trim_front cut s))

-- A value of a label: it has only characters of labels, and begins and ends with a letter or a digit.
abbrev pub is_label_value : List ℕ → Bool
is_label_value s =
    all is_label_char s && begins_outside is_separator s && ends_outside is_separator s

-- Whatever the name of the processor, what is made of it has only letters, digits and '_', '-', '.',
-- does not begin or end with one of those three, and is no longer than the name.
pub sanitize-is_label_value :
    (name : List ℕ)
    → (is_label_value (sanitize_apple_cpu_model_for_k8s_label name) ≡ true)
      × (length (sanitize_apple_cpu_model_for_k8s_label name) ≤ length name)
unfolding sanitize_apple_cpu_model_for_k8s_label
sanitize-is_label_value name =
    let model = replace_invalid false (remove_all apple 0 name) in
    let ((kept, short), begins, ends) = trim_lem is_separator is_label_char model in
    let clean = kept (replace_invalid_lem false (remove_all apple 0 name)) in
    (
      ground (arith, clean, begins, ends),
      omega (
        arith,
        short,
        length-replace_invalid false (remove_all apple 0 name),
        length-remove_all apple 0 name,
      ),
    )
