-- ===== src/Api/Turns.antt =====
-- taskrunner/api/app.py: what a turn of a web socket keeps.
use mathlib.Core.List.{append_assoc}
use distributed_task_runner.Base.{
  ℕ, suc, ◌≤◌, ◌<◌, ◌≡◌, refl, sym, ap, ◌∙◌, subst, Bool, true, false, ◌⊎◌, inl, inr, List, [], ◌∷◌,
  ◌++◌, arith, eqb, length, length-append, Bool-cases,
}
use distributed_task_runner.Models.{ClusterEvent}
use distributed_task_runner.Events.{queue_size, put_all, publish, subscribe, unsubscribe}
use distributed_task_runner.Api.Watching.{
  Stream, queue_of, without_first, take_event, send_event, round_of, handle, keep_alive,
  close_stream,
}
use distributed_task_runner.Api.Queues.{
  Within, front-Within, more-Within, both-Within, added, lost, has_id, put_all-Queued,
  queue_of-take_event, queue_of-without,
}

-- What the handler still has to send.
abbrev pub ahead : Stream → List ClusterEvent
ahead w = w.pending ++ queue_of w.id w.bus.subscribers

-- The handler runs: it has a queue, and has sent or has ahead of it events of `all` in their order;
-- while no more than its queue holds have been published, it has all of them.
pub record Going (all : List ClusterEvent) (published : ℕ) (w : Stream) : Type 0 where
  pub subscribed : has_id w.id w.bus.subscribers ≡ true
  pub whole : Within (w.sent ++ ahead w) all
  pub waiting : length (queue_of w.id w.bus.subscribers) ≤ published
  pub exact : published ≤ queue_size → w.sent ++ ahead w ≡ all

pub record Streamed (all : List ClusterEvent) (published : ℕ) (w : Stream) : Type 0 where
  pub fresh : w.id < w.bus.next_id
  pub ordered : Within w.sent all
  pub going : (w.handling ≡ false) ⊎ Going all published w

send_event-Streamed :
    (event : ClusterEvent) (w : Stream) (all : List ClusterEvent) (n : ℕ)
    → w.id < w.bus.next_id
    → Within w.sent all
    → has_id w.id w.bus.subscribers ≡ true
    → Within (w.sent ++ event ∷ ahead w) all
    → length (queue_of w.id w.bus.subscribers) ≤ n
    → (n ≤ queue_size → w.sent ++ event ∷ ahead w ≡ all)
    → Streamed all n (send_event event w)
unfolding send_event
send_event-Streamed event w all n fresh ordered has whole waiting exact =
    elim (Bool-cases w.connected) [
      | inl e ↦
          let moved = append_assoc w.sent (event ∷ []) (ahead w) in
          let sent : Within ((w.sent ++ event ∷ []) ++ ahead w) all =
            subst (λ xs. Within xs all) (sym moved) whole in
          rw e (record {
            fresh = fresh;
            ordered = front-Within (w.sent ++ event ∷ []) (ahead w) all sent;
            going = inr (record {
              subscribed = has;
              whole = sent;
              waiting = waiting;
              exact = λ small. moved ∙ exact small;
            });
          })
      | inr e ↦ rw e (record { fresh = fresh; ordered = ordered; going = inl refl })
    ]

round_of-Streamed :
    (pending queue : List ClusterEvent) (w : Stream) (all : List ClusterEvent) (n : ℕ)
    → w.pending ≡ pending
    → queue_of w.id w.bus.subscribers ≡ queue
    → w.id < w.bus.next_id
    → Within w.sent all
    → Going all n w
    → Streamed all n (round_of pending queue w)
unfolding round_of
round_of-Streamed (event ∷ pending) queue w all n p q fresh ordered going =
    let next : List ClusterEvent = queue_of w.id w.bus.subscribers in
    let moved : w.sent ++ ahead w ≡ w.sent ++ event ∷ (pending ++ next) =
      ap (λ xs. w.sent ++ (xs ++ next)) p in
    send_event-Streamed event (record w { pending = pending }) all n fresh ordered going.subscribed
      (subst (λ xs. Within xs all) moved going.whole) going.waiting
      (λ small. sym moved ∙ going.exact small)
round_of-Streamed [] (event ∷ queue) w all n p q fresh ordered going =
    let (popped, has) = queue_of-take_event w.id w.bus.subscribers in
    let rest : queue_of w.id (take_event w.id w.bus.subscribers) ≡ queue =
      popped ∙ ap without_first q in
    let moved : w.sent ++ ahead w
        ≡ w.sent ++ event ∷ (w.pending ++ queue_of w.id (take_event w.id w.bus.subscribers)) =
      rw (p, q, rest) refl in
    send_event-Streamed event
      (record w { bus = record w.bus { subscribers = take_event w.id w.bus.subscribers } }) all n
      fresh ordered (has ∙ going.subscribed) (subst (λ xs. Within xs all) moved going.whole)
      (let longer : length (queue_of w.id w.bus.subscribers) ≡ suc (length queue) = ap length q in
        let shorter : length (queue_of w.id (take_event w.id w.bus.subscribers)) ≡ length queue =
          ap length rest in
        omega (arith, longer, shorter, going.waiting))
      (λ small. sym moved ∙ going.exact small)
round_of-Streamed [] [] w all n p q fresh ordered going = record {
  fresh = fresh;
  ordered = ordered;
  going = inr going;
}

pub handle-Streamed :
    (w : Stream) (all : List ClusterEvent) (n : ℕ) → Streamed all n w → Streamed all n (handle w)
unfolding handle
handle-Streamed w all n h = elim (Bool-cases w.handling) [
  | inl e ↦
      let going : Going all n w = elim h.going [ inl over ↦ absurd (cc) | inr g ↦ g ] in
      subst (Streamed all n) (sym (rw e refl)) (
        round_of-Streamed w.pending (queue_of w.id w.bus.subscribers) w all n refl refl h.fresh
          h.ordered going)
  | inr e ↦ subst (Streamed all n) (sym (rw e refl)) h
]

-- A stream on the same bus that has sent and has ahead of it the same.
pub alike :
    (w : Stream) (all : List ClusterEvent) (n keepalives : ℕ) (connected keeping : Bool)
    → Streamed all n w
    → Streamed all n
        (record w { keepalives = keepalives; connected = connected; keeping = keeping })
alike w all n keepalives connected keeping h = record {
  fresh = h.fresh;
  ordered = h.ordered;
  going = elim h.going [
    | inl over ↦ inl over
    | inr g ↦ inr (record {
      subscribed = g.subscribed;
      whole = g.whole;
      waiting = g.waiting;
      exact = g.exact;
    })
  ];
}

pub keep_alive-Streamed :
    (w : Stream) (all : List ClusterEvent) (n : ℕ)
    → Streamed all n w
    → Streamed all n (keep_alive w)
unfolding keep_alive
keep_alive-Streamed w all n h = elim (Bool-cases w.keeping) [
  | inl e ↦ elim (Bool-cases w.connected) [
    | inl f ↦
        subst (Streamed all n) (sym (rw (e, f) refl)) (alike w all n (suc w.keepalives) true true h)
    | inr f ↦
        subst (Streamed all n) (sym (rw (e, f) refl)) (alike w all n w.keepalives false false h)
  ]
  | inr e ↦ subst (Streamed all n) (sym (rw e refl)) h
]

pub close_stream-Streamed :
    (w : Stream) (all : List ClusterEvent) (n : ℕ)
    → Streamed all n w
    → Streamed all n (close_stream w)
unfolding close_stream unsubscribe
close_stream-Streamed w all n h = elim (Bool-cases w.handling) [
  | inl e ↦ subst (Streamed all n) (sym (rw e refl)) h
  | inr e ↦ rw e (record { fresh = h.fresh; ordered = h.ordered; going = inl refl })
]

publish-Going :
    (event : ClusterEvent) (w : Stream) (all : List ClusterEvent) (n : ℕ)
    → Going all n w
    → Going (all ++ event ∷ []) (suc n) (record w { bus = publish event w.bus })
unfolding publish
publish-Going event w all n g =
    let (queued, has) = put_all-Queued event w.id w.bus.subscribers g.subscribed in
    elim queued [
      | added more ↦
          let longer : w.sent ++ (w.pending ++ queue_of w.id (put_all event w.bus.subscribers))
              ≡ (w.sent ++ ahead w) ++ event ∷ [] =
            rw more (
              ap (λ xs. w.sent ++ xs) (sym (append_assoc w.pending _ (event ∷ [])))
              ∙ sym (append_assoc w.sent (ahead w) (event ∷ []))) in
          record {
            subscribed = has;
            whole =
                subst (λ xs. Within xs (all ++ event ∷ [])) (sym longer)
                  (both-Within (w.sent ++ ahead w) all event g.whole);
            waiting = rw more (
                omega
                  (arith, length-append (queue_of w.id w.bus.subscribers) (event ∷ []), g.waiting));
            exact = λ small. longer ∙ ap (λ xs. xs ++ event ∷ []) (g.exact (omega arith));
          }
      | lost same full ↦ record {
        subscribed = has;
        whole = rw same (more-Within (w.sent ++ ahead w) all event g.whole);
        waiting = rw same (omega (arith, g.waiting));
        exact = λ small. absurd (omega (arith, full, g.waiting, small));
      }
    ]

pub publish-Streamed :
    (event : ClusterEvent) (w : Stream) (all : List ClusterEvent) (n : ℕ)
    → Streamed all n w
    → Streamed (all ++ event ∷ []) (suc n) (record w { bus = publish event w.bus })
unfolding publish
publish-Streamed event w all n h = record {
  fresh = h.fresh;
  ordered = more-Within w.sent all event h.ordered;
  going = elim h.going [ inl over ↦ inl over | inr g ↦ inr (publish-Going event w all n g) ];
}

pub join-Streamed :
    (w : Stream) (all : List ClusterEvent) (n : ℕ)
    → Streamed all n w
    → Streamed all n (record w { bus = (subscribe true w.bus).1 })
unfolding subscribe queue_of has_id
join-Streamed w all n h =
    let other : eqb w.bus.next_id w.id ≡ false = ground (arith, h.fresh) in
    record {
      fresh = omega (arith, h.fresh);
      ordered = h.ordered;
      going = elim h.going [
        | inl over ↦ inl over
        | inr g ↦ inr (record {
          subscribed = rw other g.subscribed;
          whole = rw other g.whole;
          waiting = rw other g.waiting;
          exact = rw other g.exact;
        })
      ];
    }

pub part-Streamed :
    (other : ℕ) (w : Stream) (all : List ClusterEvent) (n : ℕ)
    → eqb other w.id ≡ false
    → Streamed all n w
    → Streamed all n (record w { bus = unsubscribe other w.bus })
unfolding unsubscribe
part-Streamed other w all n apart h =
    let (same, has) = queue_of-without w.id other w.bus.subscribers apart in
    record {
      fresh = h.fresh;
      ordered = h.ordered;
      going = elim h.going [
        | inl over ↦ inl over
        | inr g ↦ inr (record {
          subscribed = has ∙ g.subscribed;
          whole = rw same g.whole;
          waiting = rw same g.waiting;
          exact = rw same g.exact;
        })
      ];
    }
