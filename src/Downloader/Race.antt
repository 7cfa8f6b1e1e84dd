-- ===== src/Downloader/Race.antt =====
-- What happens to a subscriber that comes between the last decrement and the deletion.
use mac_os_vz_kubelet.Common.{
  ℕ, ◌<◌, ◌≡◌, ◌≢◌, refl, ap, true, none, some, nat_eq, nat_eq_iff, arith, Bool-cases, inl, inr,
  sym, ◌∙◌, subst,
}
use mac_os_vz_kubelet.Downloader.{
  Place, outside, joined, counted, waiting, removing, cancelling, World, update, move,
  load_or_store_state, act, step, Reach, stepped,
}

-- Goroutine `i` has made the decrement to zero of state `s`, which the map still has, and goroutine
-- `j` has not called yet.
pub record IsBetween (i j s : ℕ) (w : World) : Type 0 where
  pub about_to_remove : w.places i ≡ removing s
  pub not_called : w.places j ≡ outside
  pub differ : i ≢ j
  pub still_current : w.current ≡ some s

-- The second goroutine subscribes, and the first goes on.
abbrev pub overlap : ℕ → ℕ → World → World
overlap i j w = step i (step i (step j (step j (step j w))))

update_self {ℓ} : {A : Type ℓ} (f : ℕ → A) (i : ℕ) (x : A) → update f i x i ≡ x
update_self f i x = rw ((nat_eq_iff i i).1 refl, update) refl

update_other {ℓ} : {A : Type ℓ} (f : ℕ → A) (i j : ℕ) (x : A) → i ≢ j → update f i x j ≡ f j
update_other f i j x n = elim (Bool-cases (nat_eq i j)) [
  | inl e ↦ absurd (n ((nat_eq_iff i j).0 e))
  | inr e ↦ rw (e, update) refl
]

step_at : (n : ℕ) (p : Place) (v : World) → v.places n ≡ p → step n v ≡ act n p v
unfolding step
step_at n p v e = ap (λ q. act n q v) e

module _ (i j s : ℕ) (w : World) (b : IsBetween i j s w) where
  -- The worlds on the way.
  abbrev after_join : World
  after_join = move j (joined s) w

  after_count : World
  after_count = act j (joined s) after_join

  after_wait : World
  after_wait = act j (counted s) after_count

  after_remove : World
  after_remove = act i (removing s) after_wait

  after_cancel : World
  after_cancel = act i (cancelling s) after_remove

  join_step : step j w ≡ after_join
  unfolding act
  join_step = step_at j outside w b.not_called ∙ ap (λ c. load_or_store_state j c w) b.still_current

  overlap_lem : overlap i j w ≡ after_cancel
  unfolding after_count after_wait after_remove after_cancel act
  overlap_lem =
      let other : j ≢ i = λ e. b.differ (sym e) in
      let there : after_wait.places i ≡ removing s =
        update_other after_count.places j i (waiting s) other
        ∙ update_other after_join.places j i (counted s) other
        ∙ update_other w.places j i (joined s) other
        ∙ b.about_to_remove in
      ap (λ v. step i (step i (step j (step j v)))) join_step
      ∙ ap (λ v. step i (step i (step j v)))
          (step_at j (joined s) after_join (update_self w.places j (joined s)))
      ∙ ap (λ v. step i (step i v))
          (step_at j (counted s) after_count (update_self after_join.places j (counted s)))
      ∙ ap (step i) (step_at i (removing s) after_wait there)
      ∙ step_at i (cancelling s) after_remove (update_self after_wait.places i (cancelling s))

  -- A call that comes between the decrement to zero of another goroutine and its deletion of the
  -- reference subscribes to a download that is cancelled under it, finished or not: it waits on a
  -- state whose context has been cancelled, and the reference is free, so that the next call starts
  -- a second download of it. Such a schedule exists in every world where the first goroutine has
  -- made its decrement, and it stays within the same goroutines.
  pub overlap-cancels :
      let v = overlap i j w in
      (v.places j ≡ waiting s)
      × ((v.states s).cancelled ≡ true)
      × ((v.states s).finished ≡ (w.states s).finished)
      × (v.current ≡ none)
      × ((k : ℕ) → Reach k w → i < k → j < k → Reach k v)
  unfolding after_count after_wait after_remove after_cancel act
  overlap-cancels =
      let other : i ≢ j = b.differ in
      let at = λ (x : Place) (f : ℕ → Place). update_other f i j x other in
      rw overlap_lem (
        at outside after_remove.places
            ∙ at (cancelling s) after_wait.places
            ∙ update_self after_count.places j (waiting s),
        ground (arith, nat_eq_iff s s),
        ground (arith, nat_eq_iff s s),
        refl,
        λ k r li lj.
            subst (Reach k) overlap_lem
              (stepped i (stepped i (stepped j (stepped j (stepped j r lj) lj) lj) li) li),
      )
