-- ===== src/Base/Text.antt =====
-- Python's `str` and `set[str]`: a text is compared whole, or by its code points; a set is a
-- list of its elements in the order in which an iteration visits them.
use Prim.Native.Char.{code}
use distributed_task_runner.Base.{
  ℕ, ◌≡◌, refl, ◌⊎◌, inl, inr, String, Bool, true, false, ◌&&◌, ◌||◌, List, [], ◌∷◌, arith, ltb,
  eqb, ◌==◌, eq_iff, if◌then◌else◌, Has, Bool-cases,
}

abbrev pub codes : String → List ℕ
codes String.[] = []
codes (String.◌∷◌ c s) = code c ∷ codes s

-- `s <= t` on texts: lexicographic on code points.
pub codes_leb : List ℕ → List ℕ → Bool
codes_leb [] t = true
codes_leb (a ∷ s) [] = false
codes_leb (a ∷ s) (b ∷ t) = ltb a b || eqb a b && codes_leb s t

unfoldable pub str_leb : String → String → Bool
unfolding codes_leb
str_leb s t = codes_leb (codes s) (codes t)

codes_leb_total : (s t : List ℕ) → (codes_leb s t ≡ true) ⊎ (codes_leb t s ≡ true)
unfolding codes_leb
codes_leb_total [] t = inl refl
codes_leb_total (a ∷ s) [] = inr refl
codes_leb_total (a ∷ s) (b ∷ t) = ground (arith, codes_leb_total s t)

codes_leb_trans :
    (s t u : List ℕ) → codes_leb s t ≡ true → codes_leb t u ≡ true → codes_leb s u ≡ true
unfolding codes_leb
codes_leb_trans [] t u h k = refl
codes_leb_trans (a ∷ s) (b ∷ t) (c ∷ u) h k = ground (arith, codes_leb_trans s t u)
codes_leb_trans (a ∷ s) [] u h k = ground arith
codes_leb_trans (a ∷ s) (b ∷ t) [] h k = ground arith

pub str_leb_total : (s t : String) → (str_leb s t ≡ true) ⊎ (str_leb t s ≡ true)
unfolding str_leb
str_leb_total s t = codes_leb_total (codes s) (codes t)

pub str_leb_trans : (s t u : String) → str_leb s t ≡ true → str_leb t u ≡ true → str_leb s u ≡ true
unfolding str_leb
str_leb_trans s t u = codes_leb_trans (codes s) (codes t) (codes u)

-- `x in xs`
unfoldable pub elem : String → List String → Bool
elem x [] = false
elem x (y ∷ ys) = y == x || elem x ys

-- `xs <= ys` on sets
unfoldable pub subset : List String → List String → Bool
unfolding elem
subset [] ys = true
subset (x ∷ xs) ys = elem x ys && subset xs ys

-- `bool(xs & ys)` on sets
unfoldable pub meets : List String → List String → Bool
unfolding elem
meets [] ys = false
meets (x ∷ xs) ys = elem x ys || meets xs ys

-- `xs.add(x)`
unfoldable pub add : String → List String → List String
unfolding elem
add x xs = if elem x xs then xs else x ∷ xs

-- `s or d` on texts
unfoldable pub or_text : String → String → String
or_text s d = if s == "" then d else s

pub elem-Has : (x : String) (ys : List String) → elem x ys ≡ true → Has x ys
unfolding elem
elem-Has x [] h = absurd (ground arith)
elem-Has x (y ∷ ys) h = ground (arith, eq_iff y x, elem-Has x ys)

pub Has-elem : (x : String) (ys : List String) → Has x ys → elem x ys ≡ true
unfolding elem
Has-elem x [] m = absurd m
Has-elem x (y ∷ ys) (inl e) = ground (arith, eq_iff y x)
Has-elem x (y ∷ ys) (inr m) = ground (arith, Has-elem x ys m)

-- After an addition the set has the new element and the old ones, and nothing else.
pub elem-add : (x y : String) (xs : List String) → elem y (add x xs) ≡ (x == y || elem y xs)
unfolding elem add
elem-add x y xs = elim (Bool-cases (elem x xs)) [
  | inl old ↦ ground (arith, eq_iff x y)
  | inr new ↦ ground arith
]
