-- ===== src/Api/Queues.antt =====
-- taskrunner/api/app.py and shared/events.py: events in their order, and the queue of one subscriber
-- among the others.
use distributed_task_runner.Base.{
  ℕ, ◌≤◌, ◌≡◌, refl, sym, ◌∙◌, Bool, true, false, ◌⊎◌, inl, inr, List, [], ◌∷◌, ◌++◌, arith, eqb,
  leb, length, Bool-cases, if◌then◌else◌,
}
use distributed_task_runner.Models.{ClusterEvent}
use distributed_task_runner.Events.{Subscriber, queue_size, put_nowait, put_all, without}
use distributed_task_runner.Api.Watching.{queue_of, without_first, take_event}

-- The first events stand among the second, in their order, and each as often at most.
unfoldable pub Within : List ClusterEvent → List ClusterEvent → Type 0
Within [] ys = Unit
Within (x ∷ xs) [] = ⊥
Within (x ∷ xs) (y ∷ ys) = ((x ≡ y) × Within xs ys) ⊎ Within (x ∷ xs) ys

pub front-Within : (xs zs ys : List ClusterEvent) → Within (xs ++ zs) ys → Within xs ys
unfolding Within
front-Within [] zs ys h = tt
front-Within (x ∷ xs) zs [] h = absurd h
front-Within (x ∷ xs) zs (y ∷ ys) (inl (e, h)) = inl (e, front-Within xs zs ys h)
front-Within (x ∷ xs) zs (y ∷ ys) (inr h) = inr (front-Within (x ∷ xs) zs ys h)

pub more-Within :
    (xs ys : List ClusterEvent) (e : ClusterEvent) → Within xs ys → Within xs (ys ++ e ∷ [])
unfolding Within
more-Within [] ys e h = tt
more-Within (x ∷ xs) [] e h = absurd h
more-Within (x ∷ xs) (y ∷ ys) e (inl (same, h)) = inl (same, more-Within xs ys e h)
more-Within (x ∷ xs) (y ∷ ys) e (inr h) = inr (more-Within (x ∷ xs) ys e h)

last-Within : (ys : List ClusterEvent) (e : ClusterEvent) → Within (e ∷ []) (ys ++ e ∷ [])
unfolding Within
last-Within [] e = inl (refl, tt)
last-Within (y ∷ ys) e = inr (last-Within ys e)

pub both-Within :
    (xs ys : List ClusterEvent) (e : ClusterEvent)
    → Within xs ys
    → Within (xs ++ e ∷ []) (ys ++ e ∷ [])
unfolding Within
both-Within [] ys e h = last-Within ys e
both-Within (x ∷ xs) [] e h = absurd h
both-Within (x ∷ xs) (y ∷ ys) e (inl (same, h)) = inl (same, both-Within xs ys e h)
both-Within (x ∷ xs) (y ∷ ys) e (inr h) = inr (both-Within (x ∷ xs) ys e h)

pub self-Within : (xs : List ClusterEvent) → Within xs xs
unfolding Within
self-Within [] = tt
self-Within (x ∷ xs) = inl (refl, self-Within xs)

-- A publication adds its event to the queue of the subscriber, or finds that full, or finds none.
pub data Queued (event : ClusterEvent) (queue queue' : List ClusterEvent) : Type 0 where
  added : queue' ≡ queue ++ event ∷ [] → Queued event queue queue'
  lost : queue' ≡ queue → queue_size ≤ length queue → Queued event queue queue'

-- There is a subscriber of this number.
unfoldable pub has_id : ℕ → List Subscriber → Bool
has_id id [] = false
has_id id (s ∷ rest) = if eqb s.id id then true else has_id id rest

put_nowait-Queued :
    (event : ClusterEvent) (s : Subscriber)
    → Queued event s.events (put_nowait event s).events × ((put_nowait event s).id ≡ s.id)
unfolding put_nowait
put_nowait-Queued event s = elim (Bool-cases (leb queue_size (length s.events))) [
  | inl full ↦ rw full (lost refl (ground (arith, full)), refl)
  | inr room ↦ rw room (added refl, refl)
]

pub put_all-Queued :
    (event : ClusterEvent) (id : ℕ) (ss : List Subscriber)
    → has_id id ss ≡ true
    → Queued event (queue_of id ss) (queue_of id (put_all event ss))
      × (has_id id (put_all event ss) ≡ true)
unfolding queue_of put_all has_id
put_all-Queued event id [] h = absurd (cc)
put_all-Queued event id (s ∷ rest) h =
    let (put, named) = put_nowait-Queued event s in
    elim (Bool-cases (eqb s.id id)) [
      | inl e ↦ rw (named, e) (put, refl)
      | inr e ↦ rw (named, e) (put_all-Queued event id rest (sym (rw e refl) ∙ h))
    ]

pub queue_of-take_event :
    (id : ℕ) (ss : List Subscriber)
    → (queue_of id (take_event id ss) ≡ without_first (queue_of id ss))
      × (has_id id (take_event id ss) ≡ has_id id ss)
unfolding queue_of take_event has_id without_first
queue_of-take_event id [] = (refl, refl)
queue_of-take_event id (s ∷ rest) = elim (Bool-cases (eqb s.id id)) [
  | inl e ↦ rw (e, e) (refl, refl)
  | inr e ↦ rw (e, e) (queue_of-take_event id rest)
]

pub queue_of-without :
    (id other : ℕ) (ss : List Subscriber)
    → eqb other id ≡ false
    → (queue_of id (without other ss) ≡ queue_of id ss)
      × (has_id id (without other ss) ≡ has_id id ss)
unfolding queue_of without has_id
queue_of-without id other [] h = (refl, refl)
queue_of-without id other (s ∷ rest) h = elim (Bool-cases (eqb s.id other)) [
  | inl e ↦
      let apart : eqb s.id id ≡ false = ground (arith, e, h) in
      rw (e, apart) (queue_of-without id other rest h)
  | inr e ↦ elim (Bool-cases (eqb s.id id)) [
    | inl f ↦ rw (e, f) (refl, refl)
    | inr f ↦ rw (e, f) (queue_of-without id other rest h)
  ]
]
