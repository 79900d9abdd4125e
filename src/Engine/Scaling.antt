-- ===== src/Engine/Scaling.antt =====
-- taskrunner/scheduler/engine.py: the bounds of `autoscaling_recommendation`.
use distributed_task_runner.Base.{
  ℕ, ◌+◌, ◌≡◌, refl, ◌⊎◌, inl, inr, List, [], ◌∷◌, map, arith, All, select, length, Bool-cases,
}
use distributed_task_runner.Base.Int.{ℤ, pos, negsuc, ltb_ℤ, ◌≤ℤ◌, ◌+ℤ◌, +ℤ_parts}
use distributed_task_runner.Models.{WorkerInfo}
use distributed_task_runner.Broker.State.{Ref}
use distributed_task_runner.Broker.Views.{snapshot}
use distributed_task_runner.Base.Dict.{values}
use distributed_task_runner.Engine.State.{Engine}
use distributed_task_runner.Engine.Workers.{
  is_online, max_ℤ, min_ℤ, sum, or_one, quotient, desired, autoscaling_recommendation,
}

sum_nonneg :
    (ws : List WorkerInfo)
    → All (λ w. pos 0 ≤ℤ w.capacity) ws
    → pos 0 ≤ℤ sum (map (λ w. w.capacity) ws)
unfolding sum
sum_nonneg [] h = omega arith
sum_nonneg (w ∷ ws) h =
    ground (arith, sum_nonneg ws h.1, +ℤ_parts w.capacity (sum (map (λ w. w.capacity) ws)), h.0)

quotient_nonneg : (n : ℕ) (d : ℤ) → pos 0 ≤ℤ d → pos 0 ≤ℤ quotient n d
unfolding quotient
quotient_nonneg n (pos d) h = omega arith
quotient_nonneg n (negsuc d) h = absurd (omega arith)

or_one_nonneg : (n : ℤ) → pos 0 ≤ℤ n → pos 0 ≤ℤ or_one n
unfolding or_one
or_one_nonneg n h = ground arith

clamped_keeps :
    (ratio : ℤ) (n : ℕ)
    → pos 0 ≤ℤ ratio
    → let m = ratio +ℤ pos n in
      (pos n ≤ℤ max_ℤ (pos 1) (min_ℤ (pos 32) m)) ⊎ (max_ℤ (pos 1) (min_ℤ (pos 32) m) ≡ pos 32)
clamped_keeps ratio n h = elim (Bool-cases (ltb_ℤ (ratio +ℤ pos n) (pos 32))) [
  | inl t ↦ inl (ground (arith, +ℤ_parts ratio (pos n)))
  | inr f ↦ inr (rw f refl)
]

desired-keeps :
    (waiting : ℕ) (online : List WorkerInfo)
    → All (λ w. pos 0 ≤ℤ w.capacity) online
    → (pos (length online) ≤ℤ desired waiting online) ⊎ (desired waiting online ≡ pos 32)
unfolding desired
desired-keeps waiting online h =
    clamped_keeps (quotient waiting (or_one (sum (map (λ w. w.capacity) online)))) (length online)
      (quotient_nonneg waiting _ (or_one_nonneg _ (sum_nonneg online h)))

desired-bounds :
    (waiting : ℕ) (online : List WorkerInfo)
    → (pos 1 ≤ℤ desired waiting online) × (desired waiting online ≤ℤ pos 32)
unfolding desired
desired-bounds waiting online = (ground arith, ground arith)

map-All :
    (objects : Ref → WorkerInfo) (ws : List Ref)
    → ((w : Ref) → pos 0 ≤ℤ (objects w).capacity)
    → All (λ (w : WorkerInfo). pos 0 ≤ℤ w.capacity) (map objects ws)
map-All objects [] h = tt
map-All objects (w ∷ ws) h = (h w, map-All objects ws h)

-- Where no worker has a negative capacity, the recommendation is of 1 worker at least and of 32 at
-- most, and is not below the number of workers that are online unless it is 32.
pub autoscaling-bounds :
    (now : ℤ) (e : Engine)
    → ((w : Ref) → pos 0 ≤ℤ (e.worker_objects w).capacity)
    → let recommendation = (autoscaling_recommendation now e).0 in
      (pos 1 ≤ℤ recommendation.desired_workers)
      × (recommendation.desired_workers ≤ℤ pos 32)
      × ((pos recommendation.current_workers ≤ℤ recommendation.desired_workers)
          ⊎ (recommendation.desired_workers ≡ pos 32))
unfolding autoscaling_recommendation
autoscaling-bounds now e h =
    let view = (snapshot now e.queue).0 in
    let waiting = view.queued + view.delayed in
    let refs = select (is_online e.worker_objects) (values e.workers) in
    let online = map e.worker_objects refs in
    let (lo, hi) = desired-bounds waiting online in
    (lo, hi, desired-keeps waiting online (map-All e.worker_objects refs h))
