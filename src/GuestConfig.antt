-- ===== src/GuestConfig.antt =====
-- internal/guestcfg/guestcfg.go: the host name that a virtual machine gets. A text is the list of its
-- code points.
pub mod HostName
mod Examples
use mac_os_vz_kubelet.Common.{
  ℕ, ◌-◌, Bool, true, false, ◌&&◌, ◌||◌, List, [], ◌∷◌, ◌++◌, leb, nat_eq, if◌then◌else◌, length,
  take,
}

-- The characters "-" and "/".
abbrev pub dash : ℕ
dash = 45

abbrev pub slash : ℕ
slash = 47

abbrev pub suffix_hex_len : ℕ
suffix_hex_len = 8

abbrev pub max_base_len : ℕ
max_base_len = 63 - 1 - suffix_hex_len

-- The text "macos-vm".
abbrev pub host_name_fallback : List ℕ
host_name_fallback = 109 ∷ 97 ∷ 99 ∷ 111 ∷ 115 ∷ 45 ∷ 118 ∷ 109 ∷ []

abbrev pub is_between : ℕ → ℕ → ℕ → Bool
is_between low high r = leb low r && leb r high

-- The ranges A-Z, a-z and 0-9, and the dash.
abbrev pub is_allowed : ℕ → Bool
is_allowed r = is_between 65 90 r || is_between 97 122 r || is_between 48 57 r || nat_eq r dash

abbrev pub written : ℕ → ℕ
written r = if is_allowed r then r else dash

-- The loop of sanitizeBase, with what it has written.
unfoldable pub write_base : List ℕ → List ℕ → List ℕ
write_base b [] = b
write_base b (r ∷ rs) =
    let c = b ++ written r ∷ [] in
    let rest = write_base c rs in if leb max_base_len (length c) then c else rest

-- strings.Trim at "-".
abbrev pub trim_left : List ℕ → List ℕ
trim_left [] = []
trim_left (c ∷ cs) = if nat_eq c dash then trim_left cs else c ∷ cs

abbrev pub cons_kept : ℕ → List ℕ → List ℕ
cons_kept c [] = if nat_eq c dash then [] else c ∷ []
cons_kept c (d ∷ ds) = c ∷ d ∷ ds

abbrev pub trim_right : List ℕ → List ℕ
trim_right [] = []
trim_right (c ∷ cs) = cons_kept c (trim_right cs)

abbrev pub or_fallback : List ℕ → List ℕ
or_fallback [] = host_name_fallback
or_fallback (c ∷ cs) = c ∷ cs

unfoldable pub sanitize_base : List ℕ → List ℕ
unfolding write_base
sanitize_base name = or_fallback (trim_right (trim_left (write_base [] name)))

-- `digest` gives the hexadecimal digits of the SHA-256 digest of a text.
unfoldable pub host_name : (List ℕ → List ℕ) → List ℕ → List ℕ → List ℕ
unfolding sanitize_base
host_name digest namespace pod =
    sanitize_base pod ++ dash ∷ take suffix_hex_len (digest (namespace ++ slash ∷ pod))
