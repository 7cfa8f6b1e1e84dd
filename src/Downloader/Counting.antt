-- ===== src/Downloader/Counting.antt =====
-- The counter of a state is the number of its subscribers, in every interleaving.
use mac_os_vz_kubelet.Common.{
  ℕ, zero, suc, ◌+◌, ◌-◌, ◌<◌, ◌≤◌, ◌≡◌, ◌≢◌, refl, ap, sym, Bool, false, Option, none, some,
  nat_eq, nat_eq_iff, if◌then◌else◌, arith, Bool-cases, inl, inr, ◌↔◌,
}
use mac_os_vz_kubelet.Downloader.{
  Place, outside, joined, counted, waiting, leaving, removing, cancelling, World, update,
  load_or_store_state, act, step, Reach, start, stepped, ended,
}

-- The goroutines between the increment and the decrement of a state.
abbrev pub is_counted : ℕ → Place → Bool
is_counted s (counted t) = nat_eq s t
is_counted s (waiting t) = nat_eq s t
is_counted s (leaving t) = nat_eq s t
is_counted s _ = false

abbrev pub one : Bool → ℕ
one b = if b then 1 else 0

-- How many of the first `k` goroutines pass a test.
abbrev pub count_below : ℕ → (ℕ → Bool) → ℕ
count_below zero p = 0
count_below (suc k) p = one (p k) + count_below k p

count_below-congr :
    (k : ℕ) (p q : ℕ → Bool) → ((j : ℕ) → j < k → p j ≡ q j) → count_below k p ≡ count_below k q
count_below-congr zero p q h = refl
count_below-congr (suc k) p q h =
    let e = h k (omega arith) in
    let r = count_below-congr k p q (λ j l. h j (omega arith)) in rw (e, r) refl

count_below-update :
    (k i : ℕ) (p q : ℕ → Bool)
    → i < k
    → ((j : ℕ) → j ≢ i → p j ≡ q j)
    → count_below k p + one (q i) ≡ count_below k q + one (p i)
count_below-update zero i p q l h = absurd (omega arith)
count_below-update (suc k) i p q l h = elim (Bool-cases (nat_eq k i)) [
  | inl e ↦
      let same : k ≡ i = (nat_eq_iff k i).0 e in
      let r = count_below-congr k p q (λ j m. h j (λ f. absurd (omega arith))) in
      let u = ap (λ n. one (p n)) same in let v = ap (λ n. one (q n)) same in omega (arith, r, u, v)
  | inr n ↦
      let other : k ≢ i = λ f. cc (n, (nat_eq_iff k i).1 f) in
      let below : i < k = ground (arith, other) in
      let r = count_below-update k i p q below h in
      let u = ap one (h k other) in omega (arith, r, u)
]

abbrev pub subscribers : ℕ → ℕ → World → ℕ
subscribers k s w = count_below k (λ i. is_counted s (w.places i))

-- What a place tells of the state it names.
abbrev Below : ℕ → Place → Type 0
Below n outside = Unit
Below n (joined s) = s < n
Below n (counted s) = s < n
Below n (waiting s) = s < n
Below n (leaving s) = s < n
Below n (removing s) = s < n
Below n (cancelling s) = s < n

module _ (k : ℕ) where
  pub record IsCounted (w : World) : Type 0 where
    pub counts : (s : ℕ) → (w.states s).subscribers ≡ subscribers k s w
    pub placed : (j : ℕ) → Below w.next (w.places j)
    pub current_below : (s : ℕ) → w.current ≡ some s → s < w.next

  -- What a move of one goroutine does to the number of subscribers of each state.
  moved :
      (i s : ℕ) (p old : Place) (w : World)
      → i < k
      → w.places i ≡ old
      → count_below k (λ j. is_counted s (update w.places i p j)) + one (is_counted s old)
        ≡ subscribers k s w + one (is_counted s p)
  moved i s p old w l e =
      let f = update w.places i p in
      let at_i : f i ≡ p = ground (arith, nat_eq_iff i i) in
      let elsewhere : (j : ℕ) → j ≢ i → is_counted s (f j) ≡ is_counted s (w.places j) =
        λ j n. ap (is_counted s) (ground (arith, nat_eq_iff i j)) in
      let r =
        count_below-update k i (λ j. is_counted s (f j)) (λ j. is_counted s (w.places j)) l
          elsewhere in
      let u = ap (λ x. one (is_counted s x)) e in
      let v = ap (λ x. one (is_counted s x)) at_i in omega (arith, r, u, v)

  Below-mono : (p : Place) (m n : ℕ) → m ≤ n → Below m p → Below n p
  Below-mono p m n l b = ground arith

  placed_after :
      (i : ℕ) (p : Place) (w : World) (n : ℕ)
      → ((j : ℕ) → Below w.next (w.places j))
      → w.next ≤ n
      → Below n p
      → (j : ℕ) → Below n (update w.places i p j)
  placed_after i p w n h l b j = elim (Bool-cases (nat_eq i j)) [
    | inl e ↦ rw (e, update) b
    | inr e ↦ rw (e, update) (Below-mono (w.places j) w.next n l (h j))
  ]

  -- A move that leaves the counters as they are, between two places that are not counted or both
  -- of one state.
  quiet_counts :
      (i s : ℕ) (p old : Place) (w : World)
      → i < k
      → w.places i ≡ old
      → is_counted s p ≡ is_counted s old
      → IsCounted w
      → (w.states s).subscribers ≡ count_below k (λ j. is_counted s (update w.places i p j))
  quiet_counts i s p old w l e same h =
      let u = ap one same in omega (arith, moved i s p old w l e, h.counts s, u)

  not_counted : (p : Place) (n : ℕ) → Below n p → is_counted n p ≡ false
  not_counted p n b = ground arith

  count_below-zero : (m : ℕ) (p : ℕ → Bool) → ((j : ℕ) → p j ≡ false) → count_below m p ≡ 0
  count_below-zero zero p h = refl
  count_below-zero (suc m) p h = let u = ap one (h m) in omega (arith, u, count_below-zero m p h)

  load_or_store_lem :
      (i : ℕ) (c : Option ℕ) (w : World)
      → i < k
      → w.places i ≡ outside
      → w.current ≡ c
      → IsCounted w
      → IsCounted (load_or_store_state i c w)
  load_or_store_lem i (some t) w l e f h = record {
    counts = λ s. quiet_counts i s (joined t) outside w l e refl h;
    placed = placed_after i (joined t) w w.next h.placed (omega arith) (h.current_below t f);
    current_below = h.current_below;
  }
  load_or_store_lem i none w l e f h =
      let unused =
        count_below-zero k (λ j. is_counted w.next (w.places j))
          (λ j. not_counted (w.places j) w.next (h.placed j)) in
      record {
        counts = λ s. ground (
          arith,
          quiet_counts i s (joined w.next) outside w l e refl h,
          h.counts s,
          nat_eq_iff w.next s,
          unused,
        );
        placed = placed_after i (joined w.next) w (suc w.next) h.placed (omega arith) (omega arith);
        current_below = λ s q. ground arith;
      }

  act_lem :
      (i : ℕ) (p : Place) (w : World) → i < k → w.places i ≡ p → IsCounted w → IsCounted (act i p w)
  unfolding act
  act_lem i outside w l e h = load_or_store_lem i w.current w l e refl h
  act_lem i (joined t) w l e h =
      let b = rw e at (h.placed i) in
      record {
        counts = λ s. ground (
          arith,
          moved i s (counted t) (joined t) w l e,
          h.counts s,
          nat_eq_iff s t,
          nat_eq_iff t s,
        );
        placed = placed_after i (counted t) w w.next h.placed (omega arith) b;
        current_below = h.current_below;
      }
  act_lem i (counted t) w l e h =
      let b = rw e at (h.placed i) in
      record {
        counts = λ s.
            ground (arith, quiet_counts i s (waiting t) (counted t) w l e refl h, nat_eq_iff t s);
        placed = placed_after i (waiting t) w w.next h.placed (omega arith) b;
        current_below = h.current_below;
      }
  act_lem i (waiting t) w l e h =
      let b = rw e at (h.placed i) in
      record {
        counts = λ s. quiet_counts i s (leaving t) (waiting t) w l e refl h;
        placed = placed_after i (leaving t) w w.next h.placed (omega arith) b;
        current_below = h.current_below;
      }
  act_lem i (leaving t) w l e h =
      let b = rw e at (h.placed i) in
      let p = if nat_eq ((w.states t).subscribers - 1) 0 then removing t else outside in
      record {
        counts = λ s.
            ground
              (arith, moved i s p (leaving t) w l e, h.counts s, nat_eq_iff s t, nat_eq_iff t s);
        placed = placed_after i p w w.next h.placed (omega arith) (ground (arith, b));
        current_below = h.current_below;
      }
  act_lem i (removing t) w l e h =
      let b = rw e at (h.placed i) in
      record {
        counts = λ s. quiet_counts i s (cancelling t) (removing t) w l e refl h;
        placed = placed_after i (cancelling t) w w.next h.placed (omega arith) b;
        current_below = λ s q. ground arith;
      }
  act_lem i (cancelling t) w l e h = record {
    counts =
        λ s. ground (arith, quiet_counts i s outside (cancelling t) w l e refl h, nat_eq_iff t s);
    placed = placed_after i outside w w.next h.placed (omega arith) tt;
    current_below = h.current_below;
  }

  pub Reach-IsCounted : {w : World} → Reach k w → IsCounted w
  unfolding step
  Reach-IsCounted start = record {
    counts = λ s. sym (count_below-zero k (λ j. false) (λ j. refl));
    placed = λ j. tt;
    current_below = λ s q. ground arith;
  }
  Reach-IsCounted (stepped {w} i r l) = act_lem i (w.places i) w l refl (Reach-IsCounted r)
  Reach-IsCounted (ended {w} s r st) =
      let h = Reach-IsCounted r in
      record {
        counts = λ t. ground (arith, h.counts t, nat_eq_iff s t);
        placed = h.placed;
        current_below = h.current_below;
      }

  -- However the calls of Download interleave, the counter of each state is the number of goroutines
  -- between their increment and their decrement. So a decrement never goes below zero, and the
  -- goroutine that goes on to delete the reference and cancel the download is the last of them.
  pub Reach-subscribers :
      {w : World}
      → Reach k w
      → ((s : ℕ) → (w.states s).subscribers ≡ subscribers k s w)
        × ((i s : ℕ)
            → i < k
            → w.places i ≡ leaving s
            → (0 < (w.states s).subscribers)
              × (((step i w).places i ≡ removing s) ↔ (subscribers k s w ≡ 1)))
  unfolding step act
  Reach-subscribers {w} r =
      let h = Reach-IsCounted r in
      (
        h.counts,
        λ i s l e.
            let pos : 0 < (w.states s).subscribers =
              ground (arith, moved i s outside (leaving s) w l e, h.counts s, nat_eq_iff s s) in
            (pos, rw e (ground (arith, h.counts s, nat_eq_iff i i, pos))),
      )
