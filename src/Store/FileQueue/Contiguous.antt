-- ===== src/Store/FileQueue/Contiguous.antt =====
-- The invariant of a queue of files: they have the queue's size, the first one begins at a multiple
-- of it, and each of the others begins where the one before it ends.
use ttstringgolangiot.Base.{
  ℕ, ◌+◌, ◌-◌, ◌*◌, ◌/◌, ◌%◌, ◌<◌, ◌≡◌, refl, ap, ◌∙◌, Option, none, some, List, [], ◌∷◌, ◌++◌,
  arith, Option-cases, Bool-cases, inl, inr,
}
use native.Mathlib.Nat.{div-add-mod, mul-mod_right}
use ttstringgolangiot.Store.MapedFile.{MapedFile, is_full}
use ttstringgolangiot.Store.FileQueue.{
  MapedFileQueue, last_file, create_offset, get_last_maped_file,
}

abbrev pub IsRun : ℕ → ℕ → List MapedFile → Type 0
IsRun size from [] = Unit
IsRun size from (f ∷ fs) =
    (f.file_from_offset ≡ from) × (f.file_size ≡ size) × IsRun size (from + size) fs

abbrev pub BeginsAligned : ℕ → List MapedFile → Type 0
BeginsAligned size [] = Unit
BeginsAligned size (f ∷ fs) =
    (f.file_from_offset % size ≡ 0) × IsRun size f.file_from_offset (f ∷ fs)

pub record IsContiguous (q : MapedFileQueue) : Type 0 where
  pub sized : 0 < q.maped_file_size
  pub run : BeginsAligned q.maped_file_size q.maped_files

-- A new last file that begins where the old one ends.
IsRun-snoc :
    (size from : ℕ) (fs : List MapedFile) (l g : MapedFile)
    → IsRun size from fs
    → last_file fs ≡ some l
    → g.file_from_offset ≡ l.file_from_offset + size
    → g.file_size ≡ size
    → IsRun size from (fs ++ g ∷ [])
IsRun-snoc size from [] l g run at e e' = absurd (cc)
IsRun-snoc size from (f ∷ []) l g run at e e' = (
  run.0,
  run.1,
  (omega (arith, e, ap (λ (x : MapedFile). x.file_from_offset) (some_eq at), run.0), e', tt),
)
  where
    some_eq : some f ≡ some l → f ≡ l
    some_eq p = cc
IsRun-snoc size from (f ∷ h ∷ fs) l g run at e e' =
    (run.0, run.1, IsRun-snoc size (from + size) (h ∷ fs) l g run.2 at e e')

aligned_start : (start size : ℕ) → 0 < size → (start - start % size) % size ≡ 0
aligned_start start size h =
    let e : start - start % size ≡ size * (start / size) = omega (arith, div-add-mod start size) in
    rw e (mul-mod_right size (start / size))

-- `NewMapedFile` of the path of an offset: the file begins there and has the size.
abbrev pub Creates : (ℕ → ℕ → Option MapedFile) → Type 0
Creates create =
    (offset size : ℕ) (f : MapedFile)
    → create offset size ≡ some f
    → (f.file_from_offset ≡ offset) × (f.file_size ≡ size)

module _ (create : ℕ → ℕ → Option MapedFile) (made : Creates create) where
  push_first :
      (size start : ℕ) (fs : List MapedFile) (f g : MapedFile)
      → 0 < size
      → last_file fs ≡ none
      → create (start - start % size) size ≡ some f
      → g.file_from_offset ≡ f.file_from_offset
      → g.file_size ≡ f.file_size
      → BeginsAligned size (fs ++ g ∷ [])
  push_first size start [] f g h none_yet e e1 e2 =
      let (at, sized) = made (start - start % size) size f e in
      (rw (e1, at) (aligned_start start size h), (refl, e2 ∙ sized, tt))
  push_first size start (x ∷ []) f g h none_yet e e1 e2 = absurd (cc)
  push_first size start (x ∷ y ∷ fs) f g h none_yet e e1 e2 = absurd (last-some y fs none_yet)
    where
      last-some : (y : MapedFile) (fs : List MapedFile) → last_file (y ∷ fs) ≡ none → ⊥
      last-some y [] e = cc
      last-some y (z ∷ fs) e = last-some z fs e

  push_next :
      (size : ℕ) (fs : List MapedFile) (l f g : MapedFile)
      → BeginsAligned size fs
      → last_file fs ≡ some l
      → create (l.file_from_offset + size) size ≡ some f
      → g.file_from_offset ≡ f.file_from_offset
      → g.file_size ≡ f.file_size
      → BeginsAligned size (fs ++ g ∷ [])
  push_next size [] l f g run at e e1 e2 = absurd (cc)
  push_next size (h ∷ fs) l f g run at e e1 e2 =
      let (from, sized) = made (l.file_from_offset + size) size f e in
      (run.0, IsRun-snoc size h.file_from_offset (h ∷ fs) l g run.1 at (e1 ∙ from) (e2 ∙ sized))

  -- If a created file begins at its offset and has the size, `getLastMapedFile` keeps the files
  -- contiguous, whether it creates a file, fails to, or finds room in the last one.
  pub get_last_maped_file-IsContiguous :
      (start : ℕ) (q : MapedFileQueue)
      → IsContiguous q
      → IsContiguous (get_last_maped_file create start q).1
  unfolding get_last_maped_file create_offset
  get_last_maped_file-IsContiguous start q v = elim (Option-cases (last_file q.maped_files)) [
    | inl none_yet ↦
        elim (Option-cases (create (start - start % q.maped_file_size) q.maped_file_size)) [
          | inl failed ↦ rw (get_last_maped_file, create_offset, none_yet, failed) v
          | inr (f, e) ↦
              rw (get_last_maped_file, create_offset, none_yet, e)
                (record {
                  sized = v.sized;
                  run =
                      push_first q.maped_file_size start q.maped_files f _ v.sized none_yet e refl
                        refl;
                })
        ]
    | inr (l, at) ↦ elim (Bool-cases (is_full l)) [
      | inr room ↦ rw (get_last_maped_file, create_offset, at, room) v
      | inl full ↦
          elim (Option-cases (create (l.file_from_offset + q.maped_file_size) q.maped_file_size)) [
            | inl failed ↦ rw (get_last_maped_file, create_offset, at, full, failed) v
            | inr (f, e) ↦
                rw (get_last_maped_file, create_offset, at, full, e)
                  (record {
                    sized = v.sized;
                    run = push_next q.maped_file_size q.maped_files l f _ v.run at e refl refl;
                  })
          ]
    ]
  ]
