-- ===== src/Broker/Returns.antt =====
-- taskrunner/queue/broker.py: the loop of `reserve` ends when its time is up.
use distributed_task_runner.Base.{
  ◌≡◌, refl, ap, subst, ◌⊎◌, inl, inr, String, true, false, Option, none, some, List, [], ◌∷◌,
  arith, Bool-cases, All, Has,
}
use distributed_task_runner.Base.Int.{ℤ, pos, at_least, ◌≤ℤ◌, ◌+ℤ◌, ◌-ℤ◌}
use distributed_task_runner.Broker.State.{Error, Ref, Broker, Outcome, ok, raised}
use distributed_task_runner.Broker.Reserve.{attempt, promote}
use distributed_task_runner.Broker.Waiting.{
  Round, Answer, returned, seen, deadline_of, gives_up, reserve_from, reserve,
}
use distributed_task_runner.Broker.WellFormed.{WellFormed}
use distributed_task_runner.Broker.Choice.{Chosen}
use distributed_task_runner.Broker.Attempt.{attempt-Chosen, attempt-WellFormed}

-- What the other threads do between two rounds keeps the queue well formed.
abbrev pub Keeps : Round → Type 0
Keeps round = (b : Broker) → WellFormed b → WellFormed (round.meanwhile b)

-- The round reads a clock that has reached the deadline, or there is no time to wait.
abbrev pub IsUp : (started timeout : ℤ) → Round → Type 0
IsUp started timeout round = ((started +ℤ timeout) ≤ℤ round.monotonic) ⊎ (timeout ≡ pos 0)

-- The call returns `o`, and the queue `b'`, as one of its rounds finds them.
pub record Answered (given : List String) (lease_seconds : ℤ) (rounds : List Round)
    (answer : Answer × Broker) : Type 0 where
  pub task : Option Ref
  pub answered : answer.0 ≡ returned (ok task)
  pub round : Round
  pub held : Has round rounds
  pub before : Broker
  pub sound : WellFormed before
  pub found :
      attempt round.now round.leased round.worker (seen given round.completed) lease_seconds before
      ≡ (ok task, answer.1)

IsUp-gives_up :
    (started timeout : ℤ) (round : Round)
    → IsUp started timeout round
    → gives_up (some timeout) (some (started +ℤ timeout)) round.monotonic ≡ true
unfolding gives_up ◌-ℤ◌ at_least
IsUp-gives_up started timeout round (inl late) = ground arith
IsUp-gives_up started timeout round (inr zero') = ground arith

module _ (given : List String) (lease_seconds : ℤ) where
  later-Answered :
      (round : Round) (rounds : List Round) (answer : Answer × Broker)
      → Answered given lease_seconds rounds answer
      → Answered given lease_seconds (round ∷ rounds) answer
  later-Answered round rounds answer a = record {
    task = a.task;
    answered = a.answered;
    round = a.round;
    held = inr a.held;
    before = a.before;
    sound = a.sound;
    found = a.found;
  }

  outcome_cases :
      (o : Outcome (Option Ref)) → ((x : Option Ref) × (o ≡ ok x)) ⊎ ((e : Error) × (o ≡ raised e))
  outcome_cases (ok x) = inl (x, refl)
  outcome_cases (raised e) = inr (e, refl)

  here-Answered :
      (round : Round) (rounds : List Round) (b : Broker) (x : Option Ref)
      → WellFormed b
      → let p =
          attempt round.now round.leased round.worker
            (seen given round.completed)
            lease_seconds
            b in
        p.0 ≡ ok x → Answered given lease_seconds (round ∷ rounds) (returned (ok x), p.1)
  here-Answered round rounds b x h e = record {
    task = x;
    answered = refl;
    round = round;
    held = inl refl;
    before = b;
    sound = h;
    found = ap (λ o. (o, p.1)) e;
  }
    where
      p : Outcome (Option Ref) × Broker
      p = attempt round.now round.leased round.worker (seen given round.completed) lease_seconds b

  reserve_from-Answered :
      (started timeout : ℤ) (rounds : List Round) (b : Broker)
      → WellFormed b
      → All Keeps rounds
      → (up : Round) × Has up rounds × IsUp started timeout up
      → Answered given lease_seconds rounds
          (reserve_from given lease_seconds (some timeout) (some (started +ℤ timeout)) rounds b)
  unfolding reserve_from
  reserve_from-Answered started timeout [] b h keep (up, m, is_up) = absurd m
  reserve_from-Answered started timeout (round ∷ rounds) b h (keep, keeps) (up, m, is_up) =
      elim (outcome_cases result.0) [
        | inr (e, is_raised) ↦ absurd (
            subst (Chosen round.worker (seen given round.completed) (promote round.now b)) is_raised
              chosen)
        | inl (some r, found) ↦
            rw (found, reserve_from) (here-Answered round rounds b (some r) h found)
        | inl (none, found) ↦
            elim (Bool-cases
              (gives_up (some timeout) (some (started +ℤ timeout)) round.monotonic)) [
                | inl t ↦ rw (found, reserve_from, t) (here-Answered round rounds b none h found)
                | inr f ↦
                    rw (found, reserve_from, f)
                      (later-Answered round rounds _ (
                        reserve_from-Answered started timeout rounds (round.meanwhile result.1)
                          (keep result.1 still) keeps (up, behind f m, is_up)))
              ]
      ]
    where
      result : Outcome (Option Ref) × Broker
      result =
          attempt round.now round.leased round.worker (seen given round.completed) lease_seconds b

      chosen : Chosen round.worker (seen given round.completed) (promote round.now b) result.0
      chosen =
          attempt-Chosen round.worker (seen given round.completed) round.now round.leased
            lease_seconds b h

      still : WellFormed result.1
      still =
          attempt-WellFormed round.worker (seen given round.completed) round.now round.leased
            lease_seconds b h

      behind :
          gives_up (some timeout) (some (started +ℤ timeout)) round.monotonic ≡ false
          → (up ≡ round) ⊎ Has up rounds
          → Has up rounds
      behind f (inl here) =
          let t = IsUp-gives_up started timeout round (subst (IsUp started timeout) here is_up) in
          cc
      behind f (inr there) = there

  -- A call of `reserve` with a timeout, on a queue that is well formed and that the other threads
  -- keep so, returns and raises nothing, once one of its rounds reads a clock that has reached the
  -- deadline; with a timeout of 0, once it has had a round. What it returns is what one of its rounds
  -- finds.
  pub reserve-Answered :
      (started timeout : ℤ) (rounds : List Round) (b : Broker)
      → WellFormed b
      → All Keeps rounds
      → (up : Round) × Has up rounds × IsUp started timeout up
      → Answered given lease_seconds rounds
          (reserve given lease_seconds (some timeout) started rounds b)
  unfolding reserve deadline_of
  reserve-Answered = reserve_from-Answered
