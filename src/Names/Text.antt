-- ===== src/Names/Text.antt =====
-- What the loops over characters compute.
use riscv64_embedded_os.Prelude.{
  ℕ, zero, suc, ◌≤◌, ◌<◌, ◌≡◌, refl, ◌≢◌, ◌⊎◌, inl, inr, ◌↔◌, List, [], ◌∷◌, Bool, true, false,
  ◌&&◌, arith, ◌==◌, if◌then◌else◌, get_or, set, length, take, length-set, Bool-cases,
}
use riscv64_embedded_os.Names.{match_from, copy_from}

-- the characters of an array in front of its first NUL
abbrev pub text : List ℕ → List ℕ
text [] = []
text (x ∷ xs) = if x == 0 then [] else x ∷ text xs

abbrev pub HasNul : List ℕ → Type 0
HasNul [] = ⊥
HasNul (x ∷ xs) = (x ≡ 0) ⊎ HasNul xs

-- the characters of a C string
abbrev pub IsName : List ℕ → Type 0
IsName [] = Unit {0}
IsName (x ∷ xs) = (x ≢ 0) × IsName xs

abbrev pub same_text : List ℕ → List ℕ → Bool
same_text [] [] = true
same_text [] (y ∷ ys) = false
same_text (x ∷ xs) [] = false
same_text (x ∷ xs) (y ∷ ys) = (x == y) && same_text xs ys

pub same_text_iff : (xs ys : List ℕ) → (same_text xs ys ≡ true) ↔ (xs ≡ ys)
same_text_iff [] [] = ground arith
same_text_iff [] (y ∷ ys) = ground arith
same_text_iff (x ∷ xs) [] = ground arith
same_text_iff (x ∷ xs) (y ∷ ys) = ground (arith, same_text_iff xs ys)

match_from-suc :
    (left j x y : ℕ) (xs ys : List ℕ)
    → match_from left (suc j) (x ∷ xs) (y ∷ ys) ≡ match_from left j xs ys
unfolding match_from
match_from-suc zero j x y xs ys = refl
match_from-suc (suc left) j x y xs ys = rw (match_from-suc left (suc j) x y xs ys)

match_from-text :
    (left : ℕ) (stored name : List ℕ)
    → HasNul stored
    → length stored ≤ left
    → IsName name
    → match_from left 0 stored name ≡ same_text (text stored) name
unfolding match_from
match_from-text left [] name nul h is = absurd nul
match_from-text zero (x ∷ xs) name nul h is = absurd (omega arith)
match_from-text (suc left) (x ∷ xs) [] nul h is = ground arith
match_from-text (suc left) (x ∷ xs) (y ∷ ys) nul h is = ground (
  arith,
  match_from-suc left 0 x y xs ys,
  λ (later : HasNul xs). match_from-text left xs ys later (omega arith) is.1,
)

copy_from-suc :
    (left j x y : ℕ) (name stored : List ℕ)
    → copy_from left (suc j) (y ∷ name) (x ∷ stored) ≡ x ∷ copy_from left j name stored
unfolding copy_from
copy_from-suc zero j x y name stored = refl
copy_from-suc (suc left) j x y name stored =
    rw (copy_from-suc left (suc j) x y name (set stored j (get_or name j 0))) (ground arith)

-- The copy is a C string again: the name, cut off at `left` characters.
pub text-copy_from :
    (left : ℕ) (name stored : List ℕ)
    → left < length stored
    → IsName name
    → text (copy_from left 0 name stored) ≡ take left name
unfolding copy_from
text-copy_from left name [] h is = absurd (omega arith)
text-copy_from zero name (x ∷ xs) h is = refl
text-copy_from (suc left) [] (x ∷ xs) h is = refl
text-copy_from (suc left) (y ∷ ys) (x ∷ xs) h is =
    ground (arith, copy_from-suc left 0 y y ys xs, text-copy_from left ys xs (omega arith) is.1)

pub copy_from-HasNul :
    (left : ℕ) (name stored : List ℕ) → left < length stored → HasNul (copy_from left 0 name stored)
unfolding copy_from
copy_from-HasNul left name [] h = absurd (omega arith)
copy_from-HasNul zero name (x ∷ xs) h = inl refl
copy_from-HasNul (suc left) [] (x ∷ xs) h = inl refl
copy_from-HasNul (suc left) (y ∷ ys) (x ∷ xs) h = elim (Bool-cases (y == 0)) [
  | inl e ↦ rw e (inl refl)
  | inr e ↦ rw (e, copy_from-suc left 0 y y ys xs) (inr (copy_from-HasNul left ys xs (omega arith)))
]

pub length-copy_from :
    (left j : ℕ) (name stored : List ℕ) → length (copy_from left j name stored) ≡ length stored
unfolding copy_from
length-copy_from zero j name stored = length-set stored j 0
length-copy_from (suc left) j name stored = ground (
  arith,
  length-set stored j 0,
  length-set stored j (get_or name j 0),
  length-copy_from left (suc j) name (set stored j (get_or name j 0)),
)

-- An array with a NUL, of no more characters than are compared, matches a name without NUL
-- exactly when its characters up to the NUL are the name.
pub match_from_iff :
    (left : ℕ) (stored name : List ℕ)
    → HasNul stored
    → length stored ≤ left
    → IsName name
    → (match_from left 0 stored name ≡ true) ↔ (text stored ≡ name)
match_from_iff left stored name nul h is =
    rw (match_from-text left stored name nul h is) (same_text_iff (text stored) name)
