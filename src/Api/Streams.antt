-- ===== src/Api/Streams.antt =====
-- taskrunner/api/app.py: what the client of a web socket is sent.
use mathlib.Core.List.{append_assoc, append-nil}
use distributed_task_runner.Base.{
  ℕ, suc, ◌+◌, ◌<◌, ◌≡◌, refl, sym, ap, ◌∙◌, subst, true, false, ◌⊎◌, inl, inr, List, [], ◌∷◌, ◌++◌,
  arith, eqb, leb, length, length-append, Bool-cases,
}
use distributed_task_runner.Models.{ClusterEvent}
use distributed_task_runner.Events.{EventBus, queue_size, publish, subscribe}
use distributed_task_runner.Api.Watching.{
  Stream, open_stream, queue_of, Doing, handles, keeps, closes, goes, joins, publishes, parts,
  watch, watch_all,
}
use distributed_task_runner.Api.Queues.{Within, self-Within, has_id}
use distributed_task_runner.Api.Turns.{
  ahead, Streamed, handle-Streamed, alike, keep_alive-Streamed, close_stream-Streamed,
  publish-Streamed, join-Streamed, part-Streamed,
}

-- The events that are published in the meantime.
unfoldable pub published_in : List Doing → List ClusterEvent
published_in [] = []
published_in (publishes event ∷ ds) = event ∷ published_in ds
published_in (_ ∷ ds) = published_in ds

published_in-append :
    (d : Doing) (ds : List Doing) → published_in (d ∷ ds) ≡ published_in (d ∷ []) ++ published_in ds
unfolding published_in
published_in-append handles ds = refl
published_in-append keeps ds = refl
published_in-append closes ds = refl
published_in-append goes ds = refl
published_in-append joins ds = refl
published_in-append (publishes event) ds = refl
published_in-append (parts other) ds = refl

quiet :
    (w : Stream) (all : List ClusterEvent) (n : ℕ)
    → Streamed all n w
    → Streamed (all ++ []) (n + 0) w
quiet w all n h =
    let same : n + 0 ≡ n = omega arith in
    subst (λ xs. Streamed xs (n + 0) w) (sym (append-nil all))
      (subst (λ k. Streamed all k w) (sym same) h)

watch-Streamed :
    (d : Doing) (w : Stream) (all : List ClusterEvent) (n : ℕ)
    → Streamed all n w
    → let new = published_in (d ∷ []) in Streamed (all ++ new) (n + length new) (watch d w)
unfolding watch published_in
watch-Streamed handles w all n h = quiet _ all n (handle-Streamed w all n h)
watch-Streamed keeps w all n h = quiet _ all n (keep_alive-Streamed w all n h)
watch-Streamed closes w all n h = quiet _ all n (close_stream-Streamed w all n h)
watch-Streamed goes w all n h = quiet _ all n (alike w all n w.keepalives false w.keeping h)
watch-Streamed joins w all n h = quiet _ all n (join-Streamed w all n h)
watch-Streamed (publishes event) w all n h =
    let one : n + 1 ≡ suc n = omega arith in
    subst (λ k. Streamed (all ++ event ∷ []) k (record w { bus = publish event w.bus })) (sym one)
      (publish-Streamed event w all n h)
watch-Streamed (parts other) w all n h = elim (Bool-cases (eqb other w.id)) [
  | inl e ↦ subst (Streamed (all ++ []) (n + 0)) (sym (rw e refl)) (quiet w all n h)
  | inr e ↦
      subst (Streamed (all ++ []) (n + 0)) (sym (rw e refl))
        (quiet _ all n (part-Streamed other w all n e h))
]

watch_all_keep :
    (ds : List Doing) (w : Stream) (all : List ClusterEvent) (n : ℕ)
    → Streamed all n w
    → Streamed (all ++ published_in ds) (n + length (published_in ds)) (watch_all ds w)
unfolding watch_all
watch_all_keep [] w all n h = unfold published_in in quiet w all n h
watch_all_keep (d ∷ ds) w all n h =
    let new : List ClusterEvent = published_in (d ∷ []) in
    let rest : List ClusterEvent = published_in ds in
    let split : published_in (d ∷ ds) ≡ new ++ rest = published_in-append d ds in
    let kept : Streamed ((all ++ new) ++ rest) ((n + length new) + length rest)
        (watch_all (d ∷ ds) w) =
      watch_all_keep ds (watch d w) (all ++ new) (n + length new) (watch-Streamed d w all n h) in
    let counted : (n + length new) + length rest ≡ n + length (published_in (d ∷ ds)) =
      omega (arith, ap length split, length-append new rest) in
    subst (λ k. Streamed (all ++ published_in (d ∷ ds)) k (watch_all (d ∷ ds) w)) counted
      (subst (λ xs. Streamed xs ((n + length new) + length rest) (watch_all (d ∷ ds) w))
        (append_assoc all new rest ∙ ap (λ xs. all ++ xs) (sym split)) kept)

open_stream-Streamed : (bus : EventBus) → Streamed bus.replay 0 (open_stream bus)
unfolding open_stream subscribe has_id queue_of Within
open_stream-Streamed bus =
    let itself : eqb bus.next_id bus.next_id ≡ true = ground arith in
    let start : (open_stream bus).sent ++ ahead (open_stream bus) ≡ bus.replay =
      rw itself (append-nil bus.replay) in
    record {
      fresh = omega arith;
      ordered = tt;
      going = inr (record {
        subscribed = rw itself refl;
        whole = subst (λ xs. Within xs bus.replay) (sym start) (self-Within bus.replay);
        waiting = rw itself (omega arith);
        exact = λ small. start;
      });
    }

-- A client that subscribes to `/events` is sent, whatever the handler, its keepalive, publishers and
-- other clients do in whatever order, events that the bus had kept and then those published in the
-- meantime, in their order and each once at most. While the handler runs and at most as many events
-- as its queue holds have been published, it has sent, or has ahead of it, all of them.
pub watch_all-delivers :
    (ds : List Doing) (bus : EventBus)
    → let w = watch_all ds (open_stream bus) in
      let all = bus.replay ++ published_in ds in
      Within w.sent all
      × ((w.handling ≡ false)
          ⊎ ((queue_size < length (published_in ds)) ⊎ (w.sent ++ ahead w ≡ all)))
watch_all-delivers ds bus =
    let news : ℕ = length (published_in ds) in
    let h = watch_all_keep ds (open_stream bus) bus.replay 0 (open_stream-Streamed bus) in
    (
      h.ordered,
      elim h.going [
        | inl over ↦ inl over
        | inr g ↦ inr (elim (Bool-cases (leb news queue_size)) [
          | inl e ↦ inr (g.exact (ground (arith, e)))
          | inr e ↦ inl (ground (arith, e))
        ])
      ],
    )
