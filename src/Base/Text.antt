-- ===== src/Base/Text.antt =====
-- Go's `strings.EqualFold` on texts of ASCII letters: equality up to the case of letters.
use Prim.Native.Char.{code}
use ttstringgolangiot.Base.{
  ℕ, ◌+◌, ◌≡◌, refl, Bool, true, false, ◌&&◌, List, [], ◌∷◌, String, arith, leb, ◌==◌,
  if◌then◌else◌,
}

abbrev pub codes : String → List ℕ
codes String.[] = []
codes (String.◌∷◌ c s) = code c ∷ codes s

abbrev pub lower : ℕ → ℕ
lower c = if leb b'A' c && leb c b'Z' then c + 32 else c

abbrev pub same_folded : List ℕ → List ℕ → Bool
same_folded [] [] = true
same_folded [] (y ∷ ys) = false
same_folded (x ∷ xs) [] = false
same_folded (x ∷ xs) (y ∷ ys) = lower x == lower y && same_folded xs ys

unfoldable pub equal_fold : String → String → Bool
equal_fold s t = same_folded (codes s) (codes t)

same_folded_refl : (xs : List ℕ) → same_folded xs xs ≡ true
same_folded_refl [] = refl
same_folded_refl (x ∷ xs) = ground (arith, same_folded_refl xs)

same_folded_sym : (xs ys : List ℕ) → same_folded xs ys ≡ same_folded ys xs
same_folded_sym [] [] = refl
same_folded_sym [] (y ∷ ys) = refl
same_folded_sym (x ∷ xs) [] = refl
same_folded_sym (x ∷ xs) (y ∷ ys) = ground (arith, same_folded_sym xs ys)

same_folded_trans :
    (xs ys zs : List ℕ)
    → same_folded xs ys ≡ true
    → same_folded ys zs ≡ true
    → same_folded xs zs ≡ true
same_folded_trans [] [] zs h k = k
same_folded_trans [] (y ∷ ys) zs h k = cc
same_folded_trans (x ∷ xs) [] zs h k = cc
same_folded_trans (x ∷ xs) (y ∷ ys) [] h k = cc
same_folded_trans (x ∷ xs) (y ∷ ys) (z ∷ zs) h k = ground (arith, same_folded_trans xs ys zs)

pub equal_fold_refl : (s : String) → equal_fold s s ≡ true
unfolding equal_fold
equal_fold_refl s = same_folded_refl (codes s)

pub equal_fold_sym : (s t : String) → equal_fold s t ≡ equal_fold t s
unfolding equal_fold
equal_fold_sym s t = same_folded_sym (codes s) (codes t)

pub equal_fold_trans :
    (s t u : String) → equal_fold s t ≡ true → equal_fold t u ≡ true → equal_fold s u ≡ true
unfolding equal_fold
equal_fold_trans s t u h k = same_folded_trans (codes s) (codes t) (codes u) h k
