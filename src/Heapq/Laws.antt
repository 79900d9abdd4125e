-- ===== src/Heapq/Laws.antt =====
-- The order of a heap and its entries under `heappush`, `heapify` and `remove`.
use distributed_task_runner.Base.{
  suc, ◌+◌, ◌≡◌, refl, sym, ◌⊎◌, inl, inr, true, some, List, [], ◌∷◌, arith, Bool-cases,
  Option-cases, subst, All, All-map, Has, length,
}
use distributed_task_runner.Heapq.{Order, heappush, push_all, heapify, remove, IsHeap}

module _ {ℓ} {A : Type ℓ} ⦃o : Order A⦄ where
  pub All-heappush {κ} :
      (P : A → Type κ) (q : List A) (a : A) → P a → All P q → All P (heappush q a)
  unfolding heappush
  All-heappush P [] a pa h = (pa, tt)
  All-heappush P (x ∷ q) a pa h = elim (Bool-cases (o.le a x)) [
    | inl e ↦ rw e (pa, h)
    | inr e ↦ rw e (h.0, All-heappush P q a pa h.1)
  ]

  pub heappush-IsHeap : (q : List A) (a : A) → IsHeap q → IsHeap (heappush q a)
  unfolding heappush
  heappush-IsHeap [] a h = (tt, tt)
  heappush-IsHeap (x ∷ q) a h = elim (Bool-cases (o.le a x)) [
    | inl e ↦ rw e ((e, All-map q (λ y l. o.trans a x y e l) h.0), h)
    | inr e ↦
        let below : o.le x a ≡ true = elim (o.total x a) [ inl l ↦ l | inr r ↦ cc ] in
        rw e (All-heappush (λ y. o.le x y ≡ true) q a below h.0, heappush-IsHeap q a h.1)
  ]

  pub length-heappush : (q : List A) (a : A) → length (heappush q a) ≡ suc (length q)
  unfolding heappush
  length-heappush [] a = refl
  length-heappush (x ∷ q) a = ground (arith, length-heappush q a)

  pub All-push_all {κ} :
      (P : A → Type κ) (q xs : List A) → All P xs → All P q → All P (push_all q xs)
  unfolding push_all
  All-push_all P q [] h k = k
  All-push_all P q (a ∷ xs) h k = All-push_all P (heappush q a) xs h.1 (All-heappush P q a h.0 k)

  pub push_all-IsHeap : (q xs : List A) → IsHeap q → IsHeap (push_all q xs)
  unfolding push_all
  push_all-IsHeap q [] h = h
  push_all-IsHeap q (a ∷ xs) h = push_all-IsHeap (heappush q a) xs (heappush-IsHeap q a h)

  pub length-push_all : (q xs : List A) → length (push_all q xs) ≡ length q + length xs
  unfolding push_all
  length-push_all q [] = omega arith
  length-push_all q (a ∷ xs) = omega (arith, length-push_all (heappush q a) xs, length-heappush q a)

  pub All-heapify {κ} : (P : A → Type κ) (xs : List A) → All P xs → All P (heapify xs)
  unfolding heapify
  All-heapify P xs h = All-push_all P [] xs h tt

  pub heapify-IsHeap : (xs : List A) → IsHeap (heapify xs)
  unfolding heapify
  heapify-IsHeap xs = push_all-IsHeap [] xs tt

  pub All-remove {κ} :
      (P : A → Type κ) (a : A) (q r : List A) → remove a q ≡ some r → All P q → All P r
  unfolding remove
  All-remove P a [] r e h = absurd (ground arith)
  All-remove P a (x ∷ q) r e h = elim (Bool-cases (o.same x a)) [
    | inl s ↦ let p : q ≡ r = ground arith in subst (All P) p h.1
    | inr s ↦ elim (Option-cases (remove a q)) [
      | inl gone ↦ absurd (ground arith)
      | inr (r', e') ↦
          let p : x ∷ r' ≡ r = ground arith in subst (All P) p (h.0, All-remove P a q r' e' h.1)
    ]
  ]

module _ {A : Type 0} ⦃o : Order A⦄ where
  pub Has-heappush : (q : List A) (a b : A) → (b ≡ a) ⊎ Has b q → Has b (heappush q a)
  unfolding heappush
  Has-heappush [] a b m = m
  Has-heappush (x ∷ q) a b m = elim (Bool-cases (o.le a x)) [
    | inl e ↦ rw e m
    | inr e ↦ rw e (elim m [
      | inl first ↦ inr (Has-heappush q a b (inl first))
      | inr (inl second) ↦ inl second
      | inr (inr old) ↦ inr (Has-heappush q a b (inr old))
    ])
  ]

  pub Has-heappush_cases : (q : List A) (a b : A) → Has b (heappush q a) → (b ≡ a) ⊎ Has b q
  unfolding heappush
  Has-heappush_cases [] a b m = m
  Has-heappush_cases (x ∷ q) a b m = elim (Bool-cases (o.le a x)) [
    | inl e ↦ rw e at m
    | inr e ↦ elim (rw e at m) [
      | inl second ↦ inr (inl second)
      | inr rest ↦ elim (Has-heappush_cases q a b rest) [
        | inl new ↦ inl new
        | inr old ↦ inr (inr old)
      ]
    ]
  ]

  pub Has-push_all_cases : (q xs : List A) (b : A) → Has b (push_all q xs) → Has b q ⊎ Has b xs
  unfolding push_all
  Has-push_all_cases q [] b m = inl m
  Has-push_all_cases q (a ∷ xs) b m = elim (Has-push_all_cases (heappush q a) xs b m) [
    | inr rest ↦ inr (inr rest)
    | inl pushed ↦ elim (Has-heappush_cases q a b pushed) [
      | inl new ↦ inr (inl new)
      | inr old ↦ inl old
    ]
  ]

  pub Has-push_all : (q xs : List A) (b : A) → Has b q ⊎ Has b xs → Has b (push_all q xs)
  unfolding push_all
  Has-push_all q [] b (inl m) = m
  Has-push_all q [] b (inr m) = absurd m
  Has-push_all q (a ∷ xs) b (inl m) =
      Has-push_all (heappush q a) xs b (inl (Has-heappush q a b (inr m)))
  Has-push_all q (a ∷ xs) b (inr (inl e)) =
      Has-push_all (heappush q a) xs b (inl (Has-heappush q a b (inl e)))
  Has-push_all q (a ∷ xs) b (inr (inr m)) = Has-push_all (heappush q a) xs b (inr m)

  pub remove_found : (a : A) (q : List A) → Has a q → (r : List A) × (remove a q ≡ some r)
  unfolding remove
  remove_found a [] m = absurd m
  remove_found a (x ∷ q) (inl e) = (q, rw (subst (λ y. o.same y a ≡ true) e (o.same_refl a)))
  remove_found a (x ∷ q) (inr m) =
      let (r, e) = remove_found a q m in
      elim (Bool-cases (o.same x a)) [ inl s ↦ (q, rw s) | inr s ↦ (x ∷ r, rw (s, e)) ]

  -- What stays when an entry is taken out.
  pub Has-remove :
      (a : A) (q r : List A) (b : A) → remove a q ≡ some r → Has b q → (o.same b a ≡ true) ⊎ Has b r
  unfolding remove
  Has-remove a [] r b e m = absurd m
  Has-remove a (x ∷ q) r b e m = elim (Bool-cases (o.same x a)) [
    | inl s ↦
        let p : q ≡ r = ground arith in
        elim m [
          | inl first ↦ inl (subst (λ y. o.same y a ≡ true) (sym first) s)
          | inr rest ↦ inr (subst (Has b) p rest)
        ]
    | inr s ↦ elim (Option-cases (remove a q)) [
      | inl gone ↦ absurd (ground arith)
      | inr (r', e') ↦
          let p : x ∷ r' ≡ r = ground arith in
          elim m [
            | inl first ↦ inr (subst (Has b) p (inl first))
            | inr rest ↦ elim (Has-remove a q r' b e' rest) [
              | inl same ↦ inl same
              | inr left ↦ inr (subst (Has b) p (inr left))
            ]
          ]
    ]
  ]

  pub Has-heapify : (q : List A) (b : A) → Has b q → Has b (heapify q)
  unfolding heapify
  Has-heapify q b m = Has-push_all [] q b (inr m)
