-- ===== src/Cli/Parts.antt =====
-- taskrunner/cli/main.py: what the elements of a comma-separated option are.
use Prim.Native.Char.{Char, code}
use distributed_task_runner.Base.{
  ℕ, ◌≡◌, refl, inl, inr, String, Bool, true, false, ◌&&◌, not, List, [], ◌∷◌, arith, eqb, All,
  Bool-cases,
}
use distributed_task_runner.Base.Text.{add, elem}
use distributed_task_runner.Cli.{
  comma, is_space, in_first, split, lstrip, is_blank, rstrip, strip, kept_parts, csv_set,
}

-- No character of the text is `sep`.
unfoldable pub lacks : (sep : ℕ) → String → Bool
lacks sep String.[] = true
lacks sep (String.◌∷◌ c s) = not (eqb (code c) sep) && lacks sep s

in_first-lacks :
    (sep : ℕ) (c : Char) (parts : List String)
    → eqb (code c) sep ≡ false
    → All (λ p. lacks sep p ≡ true) parts
    → All (λ p. lacks sep p ≡ true) (in_first c parts)
unfolding in_first lacks
in_first-lacks sep c [] h hs = (ground arith, tt)
in_first-lacks sep c (part ∷ parts) h (p, hs) = (ground arith, hs)

split-lacks : (sep : ℕ) (s : String) → All (λ p. lacks sep p ≡ true) (split sep s)
unfolding split lacks
split-lacks sep String.[] = (refl, tt)
split-lacks sep (String.◌∷◌ c s) = elim (Bool-cases (eqb (code c) sep)) [
  | inl e ↦ rw e (refl, split-lacks sep s)
  | inr e ↦ rw e (in_first-lacks sep c (split sep s) e (split-lacks sep s))
]

lstrip-lacks : (sep : ℕ) (s : String) → lacks sep s ≡ true → lacks sep (lstrip s) ≡ true
unfolding lstrip lacks
lstrip-lacks sep String.[] h = refl
lstrip-lacks sep (String.◌∷◌ c s) h = elim (Bool-cases (is_space (code c))) [
  | inl e ↦ rw e (lstrip-lacks sep s (ground (arith, h)))
  | inr e ↦ rw e h
]

rstrip-lacks : (sep : ℕ) (s : String) → lacks sep s ≡ true → lacks sep (rstrip s) ≡ true
unfolding rstrip lacks
rstrip-lacks sep String.[] h = refl
rstrip-lacks sep (String.◌∷◌ c s) h = elim (Bool-cases (is_space (code c) && is_blank (rstrip s))) [
  | inl e ↦ rw e refl
  | inr e ↦ rw e (ground (arith, h, rstrip-lacks sep s))
]

-- The text does not begin with white space.
unfoldable front : String → Bool
front String.[] = true
front (String.◌∷◌ c s) = not (is_space (code c))

front-lstrip : (s : String) → front (lstrip s) ≡ true
unfolding front lstrip
front-lstrip String.[] = refl
front-lstrip (String.◌∷◌ c s) = elim (Bool-cases (is_space (code c))) [
  | inl e ↦ rw e (front-lstrip s)
  | inr e ↦ rw e (ground (arith, e))
]

front-rstrip : (s : String) → front s ≡ true → front (rstrip s) ≡ true
unfolding front rstrip
front-rstrip String.[] h = refl
front-rstrip (String.◌∷◌ c s) h = elim (Bool-cases (is_space (code c) && is_blank (rstrip s))) [
  | inl e ↦ rw e refl
  | inr e ↦ rw e h
]

lstrip-front : (s : String) → front s ≡ true → lstrip s ≡ s
unfolding front lstrip
lstrip-front String.[] h = refl
lstrip-front (String.◌∷◌ c s) h = ground (arith, h)

rstrip_again : (s : String) → rstrip (rstrip s) ≡ rstrip s
unfolding rstrip
rstrip_again String.[] = refl
rstrip_again (String.◌∷◌ c s) = elim (Bool-cases (is_space (code c) && is_blank (rstrip s))) [
  | inl e ↦ rw e refl
  | inr e ↦ rw (e, rstrip_again s, e) refl
]

strip_again : (s : String) → strip (strip s) ≡ strip s
unfolding strip
strip_again s =
    rw (lstrip-front (rstrip (lstrip s)) (front-rstrip (lstrip s) (front-lstrip s)))
      (rstrip_again (lstrip s))

-- A name of a set: not empty, without a comma, and without white space at its ends.
pub record Clean (part : String) : Type 0 where
  pub not_empty : is_blank part ≡ false
  pub no_comma : lacks comma part ≡ true
  pub stripped : strip part ≡ part

strip-Clean :
    (part : String) → lacks comma part ≡ true → is_blank (strip part) ≡ false → Clean (strip part)
unfolding strip
strip-Clean part h e = record {
  not_empty = e;
  no_comma = rstrip-lacks comma (lstrip part) (lstrip-lacks comma part h);
  stripped = strip_again part;
}

add-Clean : (x : String) (xs : List String) → Clean x → All Clean xs → All Clean (add x xs)
unfolding add
add-Clean x xs h hs = elim (Bool-cases (elem x xs)) [ inl e ↦ rw e hs | inr e ↦ rw e (h, hs) ]

kept_parts-Clean :
    (parts : List String) → All (λ p. lacks comma p ≡ true) parts → All Clean (kept_parts parts)
unfolding kept_parts
kept_parts-Clean [] h = tt
kept_parts-Clean (part ∷ parts) (h, hs) = elim (Bool-cases (is_blank (strip part))) [
  | inl e ↦ rw e (kept_parts-Clean parts hs)
  | inr e ↦
      rw e (
        add-Clean (strip part) (kept_parts parts) (strip-Clean part h e)
          (kept_parts-Clean parts hs))
]

-- Every element of a comma-separated option is a name: it is not empty, has no comma, and neither
-- begins nor ends with white space.
pub csv_set-Clean : (value : String) → All Clean (csv_set value)
unfolding csv_set
csv_set-Clean value = kept_parts-Clean (split comma value) (split-lacks comma value)
