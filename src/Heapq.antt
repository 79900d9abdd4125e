-- ===== src/Heapq.antt =====
-- Python's `heapq` and `list.remove`, as taskrunner/queue/broker.py uses them. A heap is kept as
-- the sorted list of its entries: `heappush` files an entry, `heap[0]` and `heappop` are the head
-- and the tail, and `heapify` files every entry anew. Entries that compare equal are the same tuple.
pub mod Laws
use distributed_task_runner.Base.{
  ◌≡◌, ◌⊎◌, Bool, true, Option, none, some, List, [], ◌∷◌, if◌then◌else◌, All,
}

-- The order of Python's tuples, for the entries of one heap.
pub record Order {ℓ} (A : Type ℓ) : Type ℓ where
  pub le : A → A → Bool
  pub same : A → A → Bool
  pub total : (a b : A) → (le a b ≡ true) ⊎ (le b a ≡ true)
  pub trans : (a b c : A) → le a b ≡ true → le b c ≡ true → le a c ≡ true
  pub same_refl : (a : A) → same a a ≡ true

module _ {ℓ} {A : Type ℓ} ⦃o : Order A⦄ where
  unfoldable pub heappush : List A → A → List A
  heappush [] a = a ∷ []
  heappush (x ∷ q) a = if o.le a x then a ∷ x ∷ q else x ∷ heappush q a

  -- for a in xs: heappush(q, a)
  unfoldable pub push_all : List A → List A → List A
  unfolding heappush
  push_all q [] = q
  push_all q (a ∷ xs) = push_all (heappush q a) xs

  unfoldable pub heapify : List A → List A
  unfolding push_all
  heapify xs = push_all [] xs

  -- q.remove(a); `none` is the ValueError of an entry that is not there.
  unfoldable pub remove : A → List A → Option (List A)
  remove a [] = none
  remove a (x ∷ q) =
      if o.same x a then some q else elim (remove a q) [ none ↦ none | some r ↦ some (x ∷ r) ]

  -- Each entry is at most those behind it.
  abbrev pub IsHeap : List A → Type 0
  IsHeap [] = Unit
  IsHeap (x ∷ q) = All (λ y. o.le x y ≡ true) q × IsHeap q
