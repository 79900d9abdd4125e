-- ===== src/Events/Delivery.antt =====
-- taskrunner/shared/events.py: what is replayed and what a subscriber receives.
use mathlib.Core.List.{append_assoc, append-nil}
use distributed_task_runner.Base.{
  ℕ, zero, suc, ◌+◌, ◌-◌, ◌≤◌, ◌≡◌, refl, sym, ap, ◌∙◌, subst, true, false, inl, inr, List, [], ◌∷◌,
  ◌++◌, arith, leb, Bool-cases, length, take, length-append,
}
use distributed_task_runner.Models.{ClusterEvent}
use distributed_task_runner.Events.{
  EventBus, Subscriber, queue_size, drop, last, append, put_nowait, put_all, publish, subscribe,
}

unfoldable pub publish_all : List ClusterEvent → EventBus → EventBus
publish_all [] bus = bus
publish_all (e ∷ es) bus = publish_all es (publish e bus)

length-drop : (n : ℕ) (xs : List ClusterEvent) → length (drop n xs) ≡ length xs - n
unfolding drop
length-drop n [] = omega arith
length-drop zero (x ∷ xs) = omega arith
length-drop (suc n) (x ∷ xs) = omega (arith, length-drop n xs)

drop-append :
    (n : ℕ) (xs ys : List ClusterEvent) → n ≤ length xs → drop n (xs ++ ys) ≡ drop n xs ++ ys
unfolding drop
drop-append zero [] [] h = refl
drop-append zero [] (y ∷ ys) h = refl
drop-append (suc n) [] ys h = absurd (omega arith)
drop-append zero (x ∷ xs) ys h = refl
drop-append (suc n) (x ∷ xs) ys h = drop-append n xs ys (omega arith)

drop-drop : (m n : ℕ) (xs : List ClusterEvent) → drop m (drop n xs) ≡ drop (n + m) xs
unfolding drop
drop-drop m n [] = refl
drop-drop m zero (x ∷ xs) = ap (λ k. drop k (x ∷ xs)) (omega arith)
drop-drop m (suc n) (x ∷ xs) =
    drop-drop m n xs
    ∙ ap (λ k. drop k (x ∷ xs)) (let e : suc (n + m) ≡ suc n + m = omega arith in e)

last-append_last :
    (n : ℕ) (xs ys : List ClusterEvent) → last n (last n xs ++ ys) ≡ last n (xs ++ ys)
unfolding last
last-append_last n xs ys =
    let k : ℕ = length xs - n in
    ap (λ zs. drop (length zs - n) zs) (sym (drop-append k xs ys (omega arith)))
    ∙ drop-drop (length (drop k (xs ++ ys)) - n) k (xs ++ ys)
    ∙ ap (λ j. drop j (xs ++ ys)) (omega (arith, length-drop k (xs ++ ys), length-append xs ys))

length-last : (n : ℕ) (xs : List ClusterEvent) → length (last n xs) ≤ n
unfolding last
length-last n xs = omega (arith, length-drop (length xs - n) xs)

last_self : (n : ℕ) (xs : List ClusterEvent) → length xs ≤ n → last n xs ≡ xs
unfolding last
last_self n xs h = ap (λ j. drop j xs) (let e : length xs - n ≡ 0 = omega arith in e) ∙ drop-zero xs
  where
    drop-zero : (ys : List ClusterEvent) → drop 0 ys ≡ ys
    drop-zero [] = unfold drop in refl
    drop-zero (y ∷ ys) = unfold drop in refl

-- After any events, the replay of a bus that kept its limit is the last `replay_size` of all the
-- events that it has been given, oldest first.
pub replay-publish_all :
    (es : List ClusterEvent) (bus : EventBus)
    → length bus.replay ≤ bus.replay_size
    → (publish_all es bus).replay ≡ last bus.replay_size (bus.replay ++ es)
unfolding publish_all publish append
replay-publish_all [] bus h =
    sym (ap (last bus.replay_size) (append-nil bus.replay) ∙ last_self bus.replay_size bus.replay h)
replay-publish_all (e ∷ es) bus h =
    replay-publish_all es (publish e bus) (length-last bus.replay_size (bus.replay ++ e ∷ []))
    ∙ last-append_last bus.replay_size (bus.replay ++ e ∷ []) es
    ∙ ap (last bus.replay_size) (append_assoc bus.replay (e ∷ []) es)

-- What a subscriber has when it has taken none of `es`: as many as its queue has room for.
put_each : List ClusterEvent → Subscriber → Subscriber
put_each [] s = s
put_each (e ∷ es) s = put_each es (put_nowait e s)

put_all_each : List ClusterEvent → List Subscriber → List Subscriber
put_all_each [] ss = ss
put_all_each (e ∷ es) ss = put_all_each es (put_all e ss)

take_full : (n : ℕ) (xs ys : List ClusterEvent) → length xs ≡ n → take n (xs ++ ys) ≡ xs
take_full zero [] ys h = refl
take_full (suc n) [] ys h = absurd (omega arith)
take_full zero (x ∷ xs) ys h = absurd (omega arith)
take_full (suc n) (x ∷ xs) ys h = ap (◌∷◌ x) (take_full n xs ys (omega arith))

take_within : (n : ℕ) (xs : List ClusterEvent) → length xs ≤ n → take n xs ≡ xs
take_within zero [] h = refl
take_within (suc n) [] h = refl
take_within zero (x ∷ xs) h = absurd (omega arith)
take_within (suc n) (x ∷ xs) h = ap (◌∷◌ x) (take_within n xs (omega arith))

put_nowait_full :
    (e : ClusterEvent) (s : Subscriber)
    → leb queue_size (length s.events) ≡ true
    → put_nowait e s ≡ s
unfolding put_nowait
put_nowait_full e s full = rw full

put_nowait_room :
    (e : ClusterEvent) (s : Subscriber)
    → leb queue_size (length s.events) ≡ false
    → put_nowait e s ≡ record s { events = s.events ++ e ∷ [] }
unfolding put_nowait
put_nowait_room e s room = rw room

-- `after` has the events of `before` and the first of `es`, as many as fit.
abbrev Holds : List ClusterEvent → Subscriber → Subscriber → Type 0
Holds es before after =
    (after.events ≡ take queue_size (before.events ++ es)) × (after.id ≡ before.id)

put_each-Holds :
    (es : List ClusterEvent) (s : Subscriber)
    → length s.events ≤ queue_size
    → Holds es s (put_each es s)
unfolding put_each
put_each-Holds [] s h =
    (sym (ap (take queue_size) (append-nil s.events) ∙ take_within queue_size s.events h), refl)
put_each-Holds (e ∷ es) s h = elim (Bool-cases (leb queue_size (length s.events))) [
  | inl full ↦
      let n : length s.events ≡ queue_size = ground arith in
      let (events, id) = put_each-Holds es s h in
      subst (λ x. Holds (e ∷ es) s (put_each es x)) (sym (put_nowait_full e s full))
        (
          events
              ∙ take_full queue_size s.events es n
              ∙ sym (take_full queue_size s.events (e ∷ es) n),
          id,
        )
  | inr room ↦
      let n : length (s.events ++ e ∷ []) ≤ queue_size =
        ground (arith, length-append s.events (e ∷ [])) in
      let (events, id) = put_each-Holds es (record s { events = s.events ++ e ∷ [] }) n in
      subst (λ x. Holds (e ∷ es) s (put_each es x)) (sym (put_nowait_room e s room))
        (events ∙ ap (take queue_size) (append_assoc s.events (e ∷ []) es), id)
]

subscribers-publish_all :
    (es : List ClusterEvent) (bus : EventBus)
    → (publish_all es bus).subscribers ≡ put_all_each es bus.subscribers
unfolding publish_all publish put_all_each
subscribers-publish_all [] bus = refl
subscribers-publish_all (e ∷ es) bus = subscribers-publish_all es (publish e bus)

put_all_each_first :
    (es : List ClusterEvent) (s : Subscriber) (ss : List Subscriber)
    → (rest : List Subscriber) × (put_all_each es (s ∷ ss) ≡ put_each es s ∷ rest)
unfolding put_all_each put_each put_all
put_all_each_first [] s ss = (ss, refl)
put_all_each_first (e ∷ es) s ss = put_all_each_first es (put_nowait e s) (put_all e ss)

-- A subscriber with replay is given the events that the bus has kept and then, if it takes none
-- of the events `es` that follow, has the first of them in their order, as many as its queue holds.
pub subscribe-receives :
    (es : List ClusterEvent) (bus : EventBus)
    → let ((history, id), bus') = subscribe true bus in
      (history ≡ bus.replay)
      × ((s : Subscriber) × (rest : List Subscriber) × ((publish_all es bus').subscribers
            ≡ s ∷ rest)
          × (s.id ≡ id)
          × (s.events ≡ take queue_size es))
unfolding subscribe
subscribe-receives es bus =
    let new : Subscriber = record { id = bus.next_id; events = [] } in
    let (rest, e) = put_all_each_first es new bus.subscribers in
    let got = put_each-Holds es new (omega arith) in
    (
      refl,
      (put_each es new, rest, subscribers-publish_all es (subscribe true bus).1 ∙ e, got.1, got.0),
    )
