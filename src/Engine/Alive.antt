-- ===== src/Engine/Alive.antt =====
-- taskrunner/scheduler/engine.py: which workers a turn of `_heartbeat_reaper` takes to be offline.
use distributed_task_runner.Base.{
  ◌≡◌, refl, sym, ap, ◌∙◌, ◌⊎◌, ◌==◌, String, Bool, true, ◌&&◌, false, inl, inr, List, [], ◌∷◌,
  arith, eqb, if◌then◌else◌, Bool-cases, Has, some,
}
use distributed_task_runner.Base.Int.{ℤ, ◌≤ℤ◌, ◌-ℤ◌, ltb_ℤ}
use distributed_task_runner.Base.Dict.{Dict, lookup, values}
use distributed_task_runner.Models.{WorkerInfo, offline}
use distributed_task_runner.Broker.State.{Ref}
use distributed_task_runner.Engine.State.{Engine, Stamp, save_worker, announce}
use distributed_task_runner.Engine.Workers.{
  is_silent, reap, reap_all, heartbeat_reaper, heartbeat, alive,
}

-- What the reaper makes of a worker.
unfoldable pub judged : (now timeout : ℤ) → WorkerInfo → WorkerInfo
judged now timeout worker =
    if is_silent now timeout worker then record worker { status = offline } else worker

offline-not_silent :
    (now timeout : ℤ) (worker : WorkerInfo)
    → is_silent now timeout (record worker { status = offline }) ≡ false
unfolding is_silent
offline-not_silent now timeout worker = refl

judged_idem :
    (now timeout : ℤ) (worker : WorkerInfo)
    → judged now timeout (judged now timeout worker) ≡ judged now timeout worker
unfolding judged
judged_idem now timeout worker = elim (Bool-cases (is_silent now timeout worker)) [
  | inl t ↦ rw (t, offline-not_silent)
  | inr f ↦ rw (f, f)
]

module _ (now : ℤ) (clock : Ref → ℤ) where
  reap_object :
      (w v : Ref) (e : Engine)
      → (reap now clock w e).worker_objects v ≡ (
          if eqb w v
          then judged now e.config.heartbeat_timeout_seconds (e.worker_objects w)
          else e.worker_objects v)
  unfolding reap save_worker judged
  reap_object w v e =
      elim (Bool-cases (is_silent now e.config.heartbeat_timeout_seconds (e.worker_objects w))) [
        | inl t ↦ rw t
        | inr f ↦ elim (Bool-cases (eqb w v)) [
          | inl t ↦ let same : w ≡ v = ground arith in rw (f, t) (ap e.worker_objects (sym same))
          | inr g ↦ rw (f, g)
        ]
      ]

  reap-config : (w : Ref) (e : Engine) → (reap now clock w e).config ≡ e.config
  unfolding reap save_worker
  reap-config w e =
      elim (Bool-cases (is_silent now e.config.heartbeat_timeout_seconds (e.worker_objects w))) [
        | inl t ↦ rw t
        | inr f ↦ rw f
      ]

  module _ (timeout : ℤ) where
    reap_all_stable :
        (ws : List Ref) (v : Ref) (worker : WorkerInfo) (e : Engine)
        → e.config.heartbeat_timeout_seconds ≡ timeout
        → e.worker_objects v ≡ judged now timeout worker
        → (reap_all now clock ws e).worker_objects v ≡ judged now timeout worker
    unfolding reap_all
    reap_all_stable [] v worker e c h = h
    reap_all_stable (w ∷ ws) v worker e c h =
        reap_all_stable ws v worker (reap now clock w e)
          (ap (λ x. x.heartbeat_timeout_seconds) (reap-config w e) ∙ c)
          (reap_object w v e ∙ kept (Bool-cases (eqb w v)))
      where
        kept :
            (eqb w v ≡ true) ⊎ (eqb w v ≡ false)
            → (if eqb w v
                then judged now e.config.heartbeat_timeout_seconds (e.worker_objects w)
                else e.worker_objects v)
              ≡ judged now timeout worker
        kept (inl t) =
            let same : w ≡ v = ground arith in rw (t, c, same, h) (judged_idem now timeout worker)
        kept (inr f) = rw f h

    reap_all-judged :
        (ws : List Ref) (v : Ref) (e : Engine)
        → e.config.heartbeat_timeout_seconds ≡ timeout
        → Has v ws
        → (reap_all now clock ws e).worker_objects v ≡ judged now timeout (e.worker_objects v)
    unfolding reap_all
    reap_all-judged [] v e c m = absurd m
    reap_all-judged (w ∷ ws) v e c m = elim (Bool-cases (eqb w v)) [
      | inl t ↦
          let same : w ≡ v = ground arith in
          reap_all_stable ws v (e.worker_objects v) (reap now clock w e)
            (ap (λ x. x.heartbeat_timeout_seconds) (reap-config w e) ∙ c)
            (reap_object w v e ∙ rw (t, c, same) refl)
      | inr f ↦
          reap_all-judged ws v (reap now clock w e)
            (ap (λ x. x.heartbeat_timeout_seconds) (reap-config w e) ∙ c) (behind f m)
          ∙ ap (judged now timeout) (reap_object w v e ∙ rw f refl)
    ]
      where
        behind : eqb w v ≡ false → (v ≡ w) ⊎ Has v ws → Has v ws
        behind f (inl here) = absurd (ground arith)
        behind f (inr there) = there

-- A turn of the reaper marks a registered worker as offline if it is not so and has been silent for
-- longer than the timeout, and leaves every other registered worker as it is.
pub heartbeat_reaper-judged :
    (now : ℤ) (clock : Ref → ℤ) (v : Ref) (e : Engine)
    → Has v (values e.workers)
    → (heartbeat_reaper now clock e).worker_objects v ≡ (
        if is_silent now e.config.heartbeat_timeout_seconds (e.worker_objects v)
        then record (e.worker_objects v) { status = offline }
        else e.worker_objects v)
unfolding heartbeat_reaper judged
heartbeat_reaper-judged now clock v e m =
    reap_all-judged now clock e.config.heartbeat_timeout_seconds (values e.workers) v e refl m

lookup-Has : (k : String) (v : Ref) (d : Dict Ref) → lookup k d ≡ some v → Has v (values d)
unfolding lookup values
lookup-Has k v [] h = cc
lookup-Has k v ((name, value) ∷ d) h = elim (Bool-cases (name == k)) [
  | inl t ↦ let found : value ≡ v = ground (arith, rw t at h) in inl (sym found)
  | inr f ↦ inr (lookup-Has k v d (rw f at h))
]

alive-not_silent :
    (running_tasks now later timeout : ℤ) (worker : WorkerInfo)
    → (later -ℤ now) ≤ℤ timeout
    → is_silent later timeout (alive now running_tasks worker) ≡ false
unfolding is_silent alive
alive-not_silent running_tasks now later timeout worker soon =
    let not_later : ltb_ℤ timeout (later -ℤ now) ≡ false = ground arith in
    rw not_later (false_right _)
  where
    false_right : (b : Bool) → (b && false) ≡ false
    false_right true = refl
    false_right false = refl

reaper_spares :
    (later : ℤ) (clock : Ref → ℤ) (v : Ref) (worker : WorkerInfo) (e : Engine)
    → Has v (values e.workers)
    → e.worker_objects v ≡ worker
    → is_silent later e.config.heartbeat_timeout_seconds worker ≡ false
    → (heartbeat_reaper later clock e).worker_objects v ≡ worker
reaper_spares later clock v worker e m wrote f =
    heartbeat_reaper-judged later clock v e m ∙ rw (wrote, f) refl

-- A registered worker that sends a heartbeat is not marked as offline by a turn of the reaper that
-- comes no later than the timeout allows: it has the fields that its heartbeat gave it.
pub heartbeat-survives :
    (worker_id : String) (running_tasks now later : ℤ) (stamp : Stamp) (clock : Ref → ℤ) (v : Ref)
    (e : Engine)
    → lookup worker_id e.workers ≡ some v
    → (later -ℤ now) ≤ℤ e.config.heartbeat_timeout_seconds
    → let (seen, e') = heartbeat worker_id running_tasks now stamp e in
      (seen ≡ some v)
      × ((heartbeat_reaper later clock e').worker_objects v
          ≡ alive now running_tasks (e.worker_objects v))
unfolding heartbeat save_worker announce
heartbeat-survives worker_id running_tasks now later stamp clock v e listed soon =
    rw (listed, heartbeat)
      (
        refl,
        reaper_spares later clock v _ _ (lookup-Has worker_id v e.workers listed)
            (let t : eqb v v ≡ true = ground arith in rw t refl)
            (alive-not_silent running_tasks now later e.config.heartbeat_timeout_seconds
              (e.worker_objects v) soon),
      )
