-- ===== src/Downloader/Directory.antt =====
-- The directory that the image of a reference is kept in.
use mac_os_vz_kubelet.Common.{
  ℕ, suc, ◌<◌, ◌≡◌, refl, sym, ap, ◌∙◌, List, [], ◌∷◌, map, length, ltb, nat_eq, if◌then◌else◌,
  Bool-cases, inl, inr, arith, ltb→lt,
}
use mac_os_vz_kubelet.Network.Text.{split, join_at}
use mac_os_vz_kubelet.Downloader.Download.{convert_to_path}

-- A character of a path.
abbrev pub slash_for : ℕ → ℕ
slash_for c = if nat_eq c 58 then 47 else c

split-cons : (s : List ℕ) → (p : List ℕ) × (ps : List (List ℕ)) × (split 58 s ≡ p ∷ ps)
unfolding split
split-cons [] = ([], [], refl)
split-cons (c ∷ cs) = elim (Bool-cases (nat_eq c 58)) [
  | inl h ↦ ([], split 58 cs, rw h refl)
  | inr h ↦ let (p, ps, e) = split-cons cs in (c ∷ p, ps, rw (h, e) refl)
]

join_at-cons :
    (c : ℕ) (p : List ℕ) (ps : List (List ℕ)) → join_at 47 ((c ∷ p) ∷ ps) ≡ c ∷ join_at 47 (p ∷ ps)
unfolding join_at
join_at-cons c p [] = refl
join_at-cons c p (q ∷ ps) = refl

join_at-split : (s : List ℕ) → join_at 47 (split 58 s) ≡ map slash_for s
unfolding split join_at
join_at-split [] = refl
join_at-split (c ∷ cs) =
    let (p, ps, e) = split-cons cs in
    let ih : join_at 47 (p ∷ ps) ≡ map slash_for cs = ap (join_at 47) (sym e) ∙ join_at-split cs in
    elim (Bool-cases (nat_eq c 58)) [
      | inl h ↦ rw (h, e) (ap (λ r. 47 ∷ r) ih)
      | inr h ↦ rw (h, e) (join_at-cons c p ps ∙ ap (λ r. c ∷ r) ih)
    ]

single-split : (s : List ℕ) → length (split 58 s) < 2 → map slash_for s ≡ s
unfolding split
single-split [] h = refl
single-split (c ∷ cs) h =
    let (p, ps, e) = split-cons cs in
    elim (Bool-cases (nat_eq c 58)) [
      | inl k ↦
          let long : length (split 58 (c ∷ cs)) ≡ suc (suc (length ps)) = rw (k, e) refl in
          absurd (omega (arith, long, h))
      | inr k ↦
          let same : length (split 58 (c ∷ cs)) ≡ length (split 58 cs) = rw (k, e) refl in
          rw k (ap (λ r. c ∷ r) (single-split cs (omega (arith, same, h))))
    ]

-- The directory of an image is its reference with a slash for each colon: references that differ only
-- in those characters share one directory.
convert_to_path_lem : (s : List ℕ) → convert_to_path s ≡ map slash_for s
unfolding convert_to_path
convert_to_path_lem s = elim (Bool-cases (ltb (length (split 58 s)) 2)) [
  | inl h ↦ rw h (sym (single-split s (ltb→lt (length (split 58 s)) 2 h)))
  | inr h ↦ rw h (join_at-split s)
]
