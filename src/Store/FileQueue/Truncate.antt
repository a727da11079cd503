-- ===== src/Store/FileQueue/Truncate.antt =====
-- `truncateDirtyFiles` and the removal of files by name, against the list that should be left.
use ttstringgolangiot.Base.{
  ℕ, ◌+◌, ◌*◌, ◌/◌, ◌%◌, ◌<◌, ◌≡◌, refl, sym, ap, subst, ◌∙◌, Bool, true, false, ◌||◌, some, List,
  [], ◌∷◌, ◌++◌, String, arith, ltb, leb, if◌then◌else◌, string_eq, ◌≟◌, ≟_refl, Bool-cases, inl,
  inr,
}
use native.Mathlib.Nat.{div-add-mod'}
use ttstringgolangiot.Store.MapedFile.{MapedFile, destroy, shutdown, release, cleanup}
use ttstringgolangiot.Store.FileQueue.{
  MapedFileQueue, last_file, cut_at, remove_name, delete_expired_file, truncate_files,
  truncate_dirty_files, get_max_offset,
}
use ttstringgolangiot.Store.FileQueue.Contiguous.{IsRun, BeginsAligned, IsContiguous}
use ttstringgolangiot.Store.FileQueue.Find.{covering}
use ttstringgolangiot.Store.FileQueue.UpTo.{up_to, last_file-up_to}

unfoldable pub has_name : String → List MapedFile → Bool
has_name n [] = false
has_name n (f ∷ fs) = (f.file_name ≟ n) || has_name n fs

unfoldable pub HasUniqueNames : List MapedFile → Type 0
HasUniqueNames [] = Unit
HasUniqueNames (f ∷ fs) = (has_name f.file_name fs ≡ false) × HasUniqueNames fs

-- The files that begin behind the offset.
unfoldable pub behind : ℕ → List MapedFile → List MapedFile
behind offset [] = []
behind offset (f ∷ fs) =
    let rest = behind offset fs in if ltb offset f.file_from_offset then f ∷ rest else rest

behind_all :
    (size offset from : ℕ) (fs : List MapedFile)
    → IsRun size from fs
    → offset < from
    → behind offset fs ≡ fs
unfolding behind
behind_all size offset from [] run h = refl
behind_all size offset from (f ∷ fs) run h =
    let here : ltb offset f.file_from_offset ≡ true = ground (arith, run.0) in
    rw (behind, here)
      (ap (λ l. f ∷ l) (behind_all size offset (from + size) fs run.2 (omega arith)))

destroy-name :
    (removed : Bool) (now interval : ℕ) (f : MapedFile)
    → (destroy removed now interval f).1.file_name ≡ f.file_name
unfolding destroy shutdown release cleanup
destroy-name removed now interval f = ground arith

remove_name-skip :
    (n : String) (f : MapedFile) (fs : List MapedFile)
    → (n ≟ f.file_name) ≡ false
    → remove_name n (f ∷ fs) ≡ f ∷ remove_name n fs
unfolding remove_name
remove_name-skip n f fs h = rw (remove_name, h) refl

delete_expired_file-skip :
    (f : MapedFile) (ds fs : List MapedFile)
    → has_name f.file_name ds ≡ false
    → delete_expired_file ds (f ∷ fs) ≡ f ∷ delete_expired_file ds fs
unfolding delete_expired_file has_name
delete_expired_file-skip f [] fs h = refl
delete_expired_file-skip f (d ∷ ds) fs h =
    ap (delete_expired_file ds) (remove_name-skip d.file_name f fs (ground arith))
    ∙ delete_expired_file-skip f ds (remove_name d.file_name fs) (ground arith)

module _ (removed : MapedFile → Bool) (now : ℕ) where
  -- The files after `destroy`.
  unfoldable pub gone : List MapedFile → List MapedFile
  gone [] = []
  gone (f ∷ fs) = (destroy (removed f) now 1000 f).1 ∷ gone fs

  delete-gone : (fs : List MapedFile) → delete_expired_file fs (gone fs) ≡ []
  unfolding delete_expired_file gone remove_name
  delete-gone [] = refl
  delete-gone (f ∷ fs) =
      let e : (f.file_name ≟ (destroy (removed f) now 1000 f).1.file_name) ≡ true =
        rw (destroy-name (removed f) now 1000 f) (≟_refl f.file_name) in
      rw (delete_expired_file, remove_name, e) (delete-gone fs)

  -- Files that begin after the offset are all destroyed.
  truncate_files-beyond :
      (size offset from : ℕ) (fs : List MapedFile)
      → IsRun size from fs
      → offset < from
      → truncate_files removed now size offset fs ≡ (gone fs, fs)
  unfolding truncate_files gone
  truncate_files-beyond size offset from [] run h = refl
  truncate_files-beyond size offset from (f ∷ fs) run h =
      let over : ltb offset (f.file_from_offset + f.file_size) ≡ true =
        ground (arith, run.0, run.1) in
      let after : leb f.file_from_offset offset ≡ false = ground (arith, run.0) in
      rw
        (
          truncate_files,
          over,
          after,
          truncate_files-beyond size offset (from + size) fs run.2 (omega arith),
        )
        refl

  truncate_files-names :
      (size offset : ℕ) (n : String) (fs : List MapedFile)
      → has_name n fs ≡ false
      → has_name n (truncate_files removed now size offset fs).1 ≡ false
  unfolding truncate_files has_name
  truncate_files-names size offset n [] h = refl
  truncate_files-names size offset n (f ∷ fs) h =
      ground (arith, truncate_files-names size offset n fs)

  truncate-up_to :
      (size offset from : ℕ) (fs : List MapedFile)
      → IsRun size from fs
      → HasUniqueNames fs
      → (let cut : List MapedFile × List MapedFile = truncate_files removed now size offset fs in
          delete_expired_file cut.1 cut.0 ≡ up_to size offset fs)
  unfolding truncate_files up_to HasUniqueNames delete_expired_file
  truncate-up_to size offset from [] run unique = refl
  truncate-up_to size offset from (f ∷ fs) run unique =
      elim (Bool-cases (ltb offset (f.file_from_offset + f.file_size))) [
        | inr before ↦
            let kept = truncate_files removed now size offset fs in
            let skip =
              delete_expired_file-skip f kept.1 kept.0
                (truncate_files-names size offset f.file_name fs unique.0) in
            rw (truncate_files, up_to, before)
              (skip ∙ ap (λ l. f ∷ l) (truncate-up_to size offset (from + size) fs run.2 unique.1))
        | inl over ↦
            let beyond =
              truncate_files-beyond size offset (from + size) fs run.2
                (ground (arith, over, run.0, run.1)) in
            elim (Bool-cases (leb f.file_from_offset offset)) [
              | inl inside ↦
                  let cut = cut_at (offset % size) f in
                  rw (truncate_files, up_to, over, inside, beyond)
                    (delete_expired_file-skip cut fs (gone fs) unique.0
                      ∙ ap (λ l. cut ∷ l) (delete-gone fs))
              | inr after ↦
                  let all_beyond =
                    truncate_files-beyond size offset from (f ∷ fs) run (ground (arith, run.0)) in
                  let nothing : up_to size offset (f ∷ fs) ≡ [] = rw (up_to, over, after) refl in
                  ap (λ (cut : List MapedFile × List MapedFile). delete_expired_file cut.1 cut.0)
                    all_beyond
                  ∙ delete-gone (f ∷ fs)
                  ∙ sym nothing
            ]
      ]

module _ (removed : MapedFile → Bool) (now : ℕ) where
  -- The loop destroys the files behind the offset and no other.
  truncate_files-behind :
      (size offset from : ℕ) (fs : List MapedFile)
      → IsRun size from fs
      → truncate_files removed now size offset fs
        ≡ (up_to size offset fs ++ gone removed now (behind offset fs), behind offset fs)
  unfolding truncate_files up_to behind gone
  truncate_files-behind size offset from [] run = refl
  truncate_files-behind size offset from (f ∷ fs) run =
      elim (Bool-cases (ltb offset (f.file_from_offset + f.file_size))) [
        | inr before ↦
            let here : ltb offset f.file_from_offset ≡ false = ground (arith, before) in
            rw
              (
                truncate_files,
                up_to,
                behind,
                before,
                here,
                truncate_files-behind size offset (from + size) fs run.2,
              )
              refl
        | inl over ↦
            let next : offset < from + size = ground (arith, over, run.0, run.1) in
            let beyond =
              truncate_files-beyond removed now size offset (from + size) fs run.2 next in
            let all = behind_all size offset (from + size) fs run.2 next in
            elim (Bool-cases (leb f.file_from_offset offset)) [
              | inl inside ↦
                  let here : ltb offset f.file_from_offset ≡ false = ground (arith, inside) in
                  rw (truncate_files, up_to, behind, over, inside, here, beyond, all) refl
              | inr after ↦
                  let here : ltb offset f.file_from_offset ≡ true = ground (arith, after) in
                  rw (truncate_files, up_to, behind, over, after, here, beyond, all, gone) refl
            ]
      ]

-- Truncating contiguous files with different names at an offset calls `destroy` on the files that
-- begin behind the offset and on no other, and leaves exactly the files that end at the offset or
-- before it and the one that it falls in, cut there. If the offset falls in a file the queue ends
-- at it afterwards.
pub truncate_dirty_files_lem :
    (removed : MapedFile → Bool) (now offset : ℕ) (q : MapedFileQueue)
    → IsContiguous q
    → HasUniqueNames q.maped_files
    → let q' : MapedFileQueue = truncate_dirty_files removed now offset q in
      (q'.maped_files ≡ up_to q.maped_file_size offset q.maped_files)
      × (truncate_files removed now q.maped_file_size offset q.maped_files ≡ (
        up_to q.maped_file_size offset q.maped_files
            ++ gone removed now (behind offset q.maped_files),
        behind offset q.maped_files,
      ))
      × ((g : MapedFile) → covering offset q.maped_files ≡ some g → get_max_offset q' ≡ offset)
unfolding truncate_dirty_files get_max_offset
truncate_dirty_files_lem removed now offset q v unique =
    let kept : (truncate_dirty_files removed now offset q).maped_files
        ≡ up_to q.maped_file_size offset q.maped_files =
      whole q.maped_files v.run unique in
    (
      kept,
      loop q.maped_files v.run,
      λ g e. let (f, at, here) = ends q.maped_files g v.run e in rw (get_max_offset, kept, at) here,
    )
  where
    size : ℕ
    size = q.maped_file_size

    whole :
        (fs : List MapedFile)
        → BeginsAligned size fs
        → HasUniqueNames fs
        → (let cut : List MapedFile × List MapedFile = truncate_files removed now size offset fs in
            delete_expired_file cut.1 cut.0 ≡ up_to size offset fs)
    whole [] run unique = truncate-up_to removed now size offset 0 [] tt unique
    whole (f ∷ fs) run unique =
        truncate-up_to removed now size offset f.file_from_offset (f ∷ fs) run.1 unique

    loop :
        (fs : List MapedFile)
        → BeginsAligned size fs
        → truncate_files removed now size offset fs
          ≡ (up_to size offset fs ++ gone removed now (behind offset fs), behind offset fs)
    loop [] run = truncate_files-behind removed now size offset 0 [] tt
    loop (f ∷ fs) run =
        truncate_files-behind removed now size offset f.file_from_offset (f ∷ fs) run.1

    ends :
        (fs : List MapedFile) (g : MapedFile)
        → BeginsAligned size fs
        → covering offset fs ≡ some g
        → (f : MapedFile) × (last_file (up_to size offset fs) ≡ some f)
          × (f.file_from_offset + f.wrote_position ≡ offset)
    ends [] g run e = last_file-up_to size offset 0 [] g tt e
    ends (f ∷ fs) g run e =
        let k = f.file_from_offset / size in
        let start : k * size ≡ f.file_from_offset =
          omega (arith, div-add-mod' f.file_from_offset size, run.0) in
        last_file-up_to size offset k (f ∷ fs) g
          (subst (λ n. IsRun size n (f ∷ fs)) (sym start) run.1) e
