-- ===== src/Broker/Entries.antt =====
-- taskrunner/queue/broker.py: the entries of the two kinds of heap, in the order of Python's tuples.
use text.Mathlib.Text.{◌==◌}
use text.Mathlib.TextPositions.{eq_refl}
use distributed_task_runner.Base.{ℕ, ◌≡◌, ◌⊎◌, String, Bool, true, ◌&&◌, ◌||◌, arith, ltb, eqb}
use distributed_task_runner.Base.Int.{ℤ, ltb_ℤ, eqb_ℤ}
use distributed_task_runner.Base.Text.{str_leb, str_leb_total, str_leb_trans}
use distributed_task_runner.Heapq.{Order}

-- (priority, created_at, sequence, task_id)
pub record ReadyEntry : Type 0 where
  pub priority : ℤ
  pub created_at : ℤ
  pub sequence : ℕ
  pub task_id : String

-- (available_at, sequence, task_id)
pub record DelayedEntry : Type 0 where
  pub available_at : ℤ
  pub sequence : ℕ
  pub task_id : String

-- A pair comes before another by its first part, and where these agree by the rest.
lex : (lt eq rest : Bool) → Bool
lex lt eq rest = lt || eq && rest

unfoldable pub ready_le : ReadyEntry → ReadyEntry → Bool
unfolding lex
ready_le a b = lex (ltb_ℤ a.priority b.priority) (eqb_ℤ a.priority b.priority) (
    lex (ltb_ℤ a.created_at b.created_at) (eqb_ℤ a.created_at b.created_at)
      (lex (ltb a.sequence b.sequence) (eqb a.sequence b.sequence) (str_leb a.task_id b.task_id)))

unfoldable pub delayed_le : DelayedEntry → DelayedEntry → Bool
unfolding lex
delayed_le a b =
    lex (ltb_ℤ a.available_at b.available_at) (eqb_ℤ a.available_at b.available_at)
      (lex (ltb a.sequence b.sequence) (eqb a.sequence b.sequence) (str_leb a.task_id b.task_id))

unfoldable pub ready_same : ReadyEntry → ReadyEntry → Bool
ready_same a b =
    eqb_ℤ a.priority b.priority
    && eqb_ℤ a.created_at b.created_at
    && eqb a.sequence b.sequence
    && a.task_id == b.task_id

unfoldable pub delayed_same : DelayedEntry → DelayedEntry → Bool
delayed_same a b =
    eqb_ℤ a.available_at b.available_at && eqb a.sequence b.sequence && a.task_id == b.task_id

pub ready_le_total : (a b : ReadyEntry) → (ready_le a b ≡ true) ⊎ (ready_le b a ≡ true)
unfolding ready_le
ready_le_total a b = ground (arith, str_leb_total a.task_id b.task_id)

lex_trans :
    (a b c : ℤ) (r s t : Bool)
    → (r ≡ true → s ≡ true → t ≡ true)
    → lex (ltb_ℤ a b) (eqb_ℤ a b) r ≡ true
    → lex (ltb_ℤ b c) (eqb_ℤ b c) s ≡ true
    → lex (ltb_ℤ a c) (eqb_ℤ a c) t ≡ true
unfolding lex
lex_trans a b c r s t rest h k = ground arith

numbers_trans :
    (a b c : ℕ) (r s t : Bool)
    → (r ≡ true → s ≡ true → t ≡ true)
    → lex (ltb a b) (eqb a b) r ≡ true
    → lex (ltb b c) (eqb b c) s ≡ true
    → lex (ltb a c) (eqb a c) t ≡ true
unfolding lex
numbers_trans a b c r s t rest h k = ground arith

pub ready_le_trans :
    (a b c : ReadyEntry) → ready_le a b ≡ true → ready_le b c ≡ true → ready_le a c ≡ true
unfolding ready_le
ready_le_trans a b c = lex_trans a.priority b.priority c.priority _ _ _ (
    lex_trans a.created_at b.created_at c.created_at _ _ _ (
      numbers_trans a.sequence b.sequence c.sequence _ _ _
        (str_leb_trans a.task_id b.task_id c.task_id)))

pub ready_same_refl : (a : ReadyEntry) → ready_same a a ≡ true
unfolding ready_same
ready_same_refl a = ground (arith, eq_refl a.task_id)

pub delayed_le_total : (a b : DelayedEntry) → (delayed_le a b ≡ true) ⊎ (delayed_le b a ≡ true)
unfolding delayed_le
delayed_le_total a b = ground (arith, str_leb_total a.task_id b.task_id)

pub delayed_le_trans :
    (a b c : DelayedEntry) → delayed_le a b ≡ true → delayed_le b c ≡ true → delayed_le a c ≡ true
unfolding delayed_le
delayed_le_trans a b c = lex_trans a.available_at b.available_at c.available_at _ _ _ (
    numbers_trans a.sequence b.sequence c.sequence _ _ _
      (str_leb_trans a.task_id b.task_id c.task_id))

pub delayed_same_refl : (a : DelayedEntry) → delayed_same a a ≡ true
unfolding delayed_same
delayed_same_refl a = ground (arith, eq_refl a.task_id)

instance abbrev pub ready_order : Order ReadyEntry
ready_order = record {
  le = ready_le;
  same = ready_same;
  total = ready_le_total;
  trans = ready_le_trans;
  same_refl = ready_same_refl;
}

instance abbrev pub delayed_order : Order DelayedEntry
delayed_order = record {
  le = delayed_le;
  same = delayed_same;
  total = delayed_le_total;
  trans = delayed_le_trans;
  same_refl = delayed_same_refl;
}
