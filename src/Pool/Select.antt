-- ===== src/Pool/Select.antt =====
-- The worker that gets a new client, in src/kitserv.c.
use kitserv.Prelude.{
  ℕ, suc, ◌+◌, ◌-◌, ◌*◌, ◌≤◌, ◌<◌, ◌≡◌, refl, ◌⊎◌, inl, inr, Option, none, some, List, [], ◌∷◌,
  arith, ltb, Bool-cases,
}
use native.Mathlib.Nat.{div-add-mod', mod-lt}
use kitserv.Pool.{
  ConnectionContainer, score_worker, best_from, select_client_worker, Shared, int_max, share_slots,
}

-- Every score in the list is below `s`.
abbrev pub AllBelow : ℕ → List ConnectionContainer → Type 0
AllBelow s [] = Unit
AllBelow s (w ∷ ws) = (score_worker w < s) × AllBelow s ws

-- `b` is the index, from `i` on, of the first worker of the highest score in the list.
abbrev pub IsBest : ℕ → ℕ → ℕ → List ConnectionContainer → Type 0
IsBest i b s [] = ⊥
IsBest i b s (w ∷ ws) =
    ((b ≡ i) × (s ≡ score_worker w) × AllBelow (suc s) ws)
    ⊎ ((score_worker w < s) × IsBest (i + 1) b s ws)

-- What the loop gives from a best worker so far.
abbrev Goes : ℕ → ℕ → ℕ → Option (ℕ × ℕ) → List ConnectionContainer → Type 0
Goes i b s none ws = ⊥
Goes i b s (some (b', s')) ws =
    ((b' ≡ b) × (s' ≡ s) × AllBelow (suc s) ws) ⊎ ((s < s') × IsBest i b' s' ws)

best_from-Goes :
    (ws : List ConnectionContainer) (i b s : ℕ) → Goes i b s (best_from i (some (b, s)) ws) ws
unfolding best_from
best_from-Goes [] i b s = inl (refl, refl, tt)
best_from-Goes (w ∷ ws) i b s = elim (Bool-cases (ltb s (score_worker w))) [
  | inl more ↦ rw more (
      better (ground arith) (best_from (i + 1) (some (i, score_worker w)) ws)
        (best_from-Goes ws (i + 1) i (score_worker w)))
  | inr less ↦
      rw less
        (kept (ground arith) (best_from (i + 1) (some (b, s)) ws) (best_from-Goes ws (i + 1) b s))
]
  where
    better :
        s < score_worker w
        → (o : Option (ℕ × ℕ)) → Goes (i + 1) i (score_worker w) o ws
        → Goes i b s o (w ∷ ws)
    better m none h = h
    better m (some (b', s')) (inl h) = inr (omega arith, inl (h.0, h.1, rw h.1 h.2))
    better m (some (b', s')) (inr h) = inr (omega arith, inr h)

    kept : score_worker w ≤ s → (o : Option (ℕ × ℕ)) → Goes (i + 1) b s o ws → Goes i b s o (w ∷ ws)
    kept m none h = h
    kept m (some (b', s')) (inl h) = inl (h.0, h.1, (omega arith, h.2))
    kept m (some (b', s')) (inr h) = inr (h.0, inr (omega arith, h.1))

-- With at least one worker, one is chosen, and it is the first of those with the most free slots.
pub select_client_worker-IsBest :
    (w : ConnectionContainer) (ws : List ConnectionContainer)
    → (b : ℕ) × (s : ℕ) × (select_client_worker (w ∷ ws) ≡ some b) × IsBest 0 b s (w ∷ ws)
unfolding select_client_worker
select_client_worker-IsBest w ws =
    chosen (best_from 1 (some (0, score_worker w)) ws) refl (best_from-Goes ws 1 0 (score_worker w))
  where
    chosen :
        (o : Option (ℕ × ℕ))
        → best_from 1 (some (0, score_worker w)) ws ≡ o
        → Goes 1 0 (score_worker w) o ws
        → (b : ℕ) × (s : ℕ) × (select_client_worker (w ∷ ws) ≡ some b) × IsBest 0 b s (w ∷ ws)
    chosen none e h = absurd h
    chosen (some (b, s)) e (inl h) = (b, s, rw e, inl (h.0, h.1, rw h.1 h.2))
    chosen (some (b, s)) e (inr h) = (b, s, rw e, inr (h.0, h.1))

-- The checks that refuse a configuration.
pub share_slots-refused :
    (num_slots num_workers : ℕ)
    → share_slots num_slots num_workers ≡ Shared.refused
    → (num_slots ≡ 0) ⊎ (num_workers ≡ 0) ⊎ (num_slots < num_workers)
unfolding share_slots
share_slots-refused num_slots num_workers h = ground arith

pub share_slots-overflow :
    (num_slots num_workers : ℕ)
    → share_slots num_slots num_workers ≡ Shared.overflow
    → int_max < num_slots + num_workers
unfolding share_slots
share_slots-overflow num_slots num_workers h = ground arith

-- When a configuration is accepted, each worker has a slot, and the slots of all workers together
-- are no fewer than configured, and fewer than one more for each worker.
pub share_slots_bounds :
    (num_slots num_workers : ℕ) {slots : ℕ}
    → share_slots num_slots num_workers ≡ Shared.shared slots
    → (0 < slots)
      × (0 < num_workers)
      × (num_workers ≤ num_slots)
      × (num_slots ≤ slots * num_workers)
      × (slots * num_workers < num_slots + num_workers)
unfolding share_slots
share_slots_bounds num_slots num_workers {slots} h =
    let x = num_slots + num_workers - 1 in
    grind (arith, div-add-mod' x num_workers, mod-lt x {m = num_workers})
