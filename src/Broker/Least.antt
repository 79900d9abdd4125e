-- ===== src/Broker/Least.antt =====
-- taskrunner/queue/broker.py: the `min` of `_pop_eligible_locked` by the order of the entries.
use distributed_task_runner.Base.{
  ◌≡◌, refl, sym, ap, subst, inl, inr, true, false, List, [], ◌∷◌, if◌then◌else◌, Bool-cases, All,
  Has,
}
use distributed_task_runner.Broker.Entries.{ReadyEntry, ready_le, ready_le_total, ready_le_trans}
use distributed_task_runner.Broker.Reserve.{Candidate, better, least}

least_keep :
    (best c : Candidate) (cs : List Candidate)
    → ready_le best.entry c.entry ≡ true
    → least best (c ∷ cs) ≡ least best cs
unfolding least
least_keep best c cs t = ap (λ x. least x cs) (kept t)
  where
    kept : ready_le best.entry c.entry ≡ true → better best c ≡ best
    kept e = unfold better in cc (ap (λ x. if x then best else c) e)

least_replace :
    (best c : Candidate) (cs : List Candidate)
    → ready_le best.entry c.entry ≡ false
    → least best (c ∷ cs) ≡ least c cs
unfolding least
least_replace best c cs f = ap (λ x. least x cs) (replaced f)
  where
    replaced : ready_le best.entry c.entry ≡ false → better best c ≡ c
    replaced e = unfold better in cc (ap (λ x. if x then best else c) e)

-- The candidate that `min` picks is one of them.
pub least_among : (best : Candidate) (cs : List Candidate) → Has (least best cs) (best ∷ cs)
least_among best [] = unfold least in inl refl
least_among best (c ∷ cs) = elim (Bool-cases (ready_le best.entry c.entry)) [
  | inl t ↦
      subst (λ x. Has x (best ∷ c ∷ cs)) (sym (least_keep best c cs t))
        (elim (least_among best cs) [ inl e ↦ inl e | inr m ↦ inr (inr m) ])
  | inr f ↦
      subst (λ x. Has x (best ∷ c ∷ cs)) (sym (least_replace best c cs f)) (inr (least_among c cs))
]

below_of_false : (a b : ReadyEntry) → ready_le a b ≡ false → ready_le b a ≡ true
below_of_false a b f = elim (ready_le_total a b) [ inl e ↦ cc | inr e ↦ e ]

abbrev pub IsLeast : Candidate → List Candidate → Type 0
IsLeast x cs = All (λ c. ready_le x.entry c.entry ≡ true) cs

-- None of them is before it.
pub least_le : (best : Candidate) (cs : List Candidate) → IsLeast (least best cs) (best ∷ cs)
least_le best [] =
    unfold least in (elim (ready_le_total best.entry best.entry) [ inl e ↦ e | inr e ↦ e ], tt)
least_le best (c ∷ cs) = elim (Bool-cases (ready_le best.entry c.entry)) [
  | inl t ↦
      let (first, others) = least_le best cs in
      subst (λ x. IsLeast x (best ∷ c ∷ cs)) (sym (least_keep best c cs t))
        (first, (ready_le_trans _ best.entry c.entry first t, others))
  | inr f ↦
      let (first, others) = least_le c cs in
      subst (λ x. IsLeast x (best ∷ c ∷ cs)) (sym (least_replace best c cs f))
        (
          ready_le_trans _ c.entry best.entry first (below_of_false best.entry c.entry f),
          (first, others),
        )
]
