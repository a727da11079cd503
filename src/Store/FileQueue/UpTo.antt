-- ===== src/Store/FileQueue/UpTo.antt =====
-- The files up to an offset, as truncateDirtyFiles of stgstorelog/mapedfile_queue.go is to leave them.
use ttstringgolangiot.Base.{
  ℕ, ◌+◌, ◌-◌, ◌*◌, ◌%◌, ◌≤◌, ◌<◌, ◌≡◌, refl, sym, ap, subst, ◌∙◌, none, some, List, [], ◌∷◌, arith,
  ltb, leb, if◌then◌else◌, string_eq, Bool-cases, inl, inr,
}
use native.Mathlib.Nat.{add-mul-mod_self_right, mod-eq_of_lt}
use ttstringgolangiot.Store.MapedFile.{MapedFile}
use ttstringgolangiot.Store.FileQueue.{last_file, cut_at}
use ttstringgolangiot.Store.FileQueue.Contiguous.{IsRun}
use ttstringgolangiot.Store.FileQueue.Find.{covering}

-- The files that end at the offset or before it, and the file that it falls in, cut there.
unfoldable pub up_to : ℕ → ℕ → List MapedFile → List MapedFile
up_to size offset [] = []
up_to size offset (f ∷ fs) =
    let rest = up_to size offset fs in
    if ltb offset (f.file_from_offset + f.file_size)
    then if leb f.file_from_offset offset then cut_at (offset % size) f ∷ [] else []
    else f ∷ rest

last_file-cons :
    (f x : MapedFile) (fs : List MapedFile) → last_file fs ≡ some x → last_file (f ∷ fs) ≡ some x
last_file-cons f x [] e = absurd (cc)
last_file-cons f x (g ∷ fs) e = e

covering-beyond :
    (size offset from : ℕ) (fs : List MapedFile)
    → IsRun size from fs
    → offset < from
    → covering offset fs ≡ none
unfolding covering
covering-beyond size offset from [] run h = refl
covering-beyond size offset from (f ∷ fs) run h =
    ground (arith, run.0, run.1, covering-beyond size offset (from + size) fs run.2 (omega arith))

place_in_block :
    (size offset k : ℕ)
    → k * size ≤ offset
    → offset < k * size + size
    → k * size + offset % size ≡ offset
place_in_block size offset k low high =
    let e : offset - k * size + k * size ≡ offset = omega arith in
    let m : offset % size ≡ offset - k * size =
      ap (λ n. n % size) (sym e)
      ∙ add-mul-mod_self_right (offset - k * size) k size
      ∙ mod-eq_of_lt (omega arith) in
    omega (arith, m)

pub last_file-up_to :
    (size offset k : ℕ) (fs : List MapedFile) (g : MapedFile)
    → IsRun size (k * size) fs
    → covering offset fs ≡ some g
    → (f : MapedFile) × (last_file (up_to size offset fs) ≡ some f)
      × (f.file_from_offset + f.wrote_position ≡ offset)
unfolding up_to covering
last_file-up_to size offset k [] g run e = absurd (cc)
last_file-up_to size offset k (f ∷ fs) g run e =
    let next : k * size + size ≡ (k + 1) * size = grind arith in
    elim (Bool-cases (ltb offset (f.file_from_offset + f.file_size))) [
      | inr before ↦
          let later : covering offset fs ≡ some g = ground (arith, before, e) in
          let (x, at, here) =
            last_file-up_to size offset (k + 1) fs g (subst (λ n. IsRun size n fs) next run.2)
              later in
          (x, rw (up_to, before) (last_file-cons f x (up_to size offset fs) at), here)
      | inl over ↦ elim (Bool-cases (leb f.file_from_offset offset)) [
        | inl inside ↦
            let low : k * size ≤ offset = ground (arith, inside, run.0) in
            let high : offset < k * size + size = ground (arith, over, run.0, run.1) in
            (
              cut_at (offset % size) f,
              rw (up_to, over, inside) refl,
              omega (arith, place_in_block size offset k low high, run.0),
            )
        | inr after ↦
            let early : offset < k * size = ground (arith, after, run.0) in
            absurd (cc (sym (covering-beyond size offset (k * size) (f ∷ fs) run early) ∙ e))
      ]
    ]
