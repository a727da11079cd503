-- ===== src/Store/FileQueue/Find.antt =====
-- `findMapedFileByOffset` computes an index; the reference is a search for the file that covers
-- the offset.
use ttstringgolangiot.Base.{
  ℕ, zero, suc, ◌+◌, ◌-◌, ◌*◌, ◌/◌, ◌%◌, ◌≤◌, ◌<◌, ◌≡◌, refl, sym, ap, subst, ◌∙◌, Bool, true,
  false, not, ◌&&◌, Option, none, some, List, [], ◌∷◌, arith, ltb, leb, if◌then◌else◌, length,
  get_elem?, Option-cases, Bool-cases, inl, inr,
}
use native.Mathlib.Nat.{div-add-mod', mod-lt, mul-le-mul_right}
use ttstringgolangiot.Store.MapedFile.{MapedFile}
use ttstringgolangiot.Store.FileQueue.{MapedFileQueue, index_in, find_maped_file_by_offset}
use ttstringgolangiot.Store.FileQueue.Contiguous.{IsRun, BeginsAligned, IsContiguous}

-- The first file with `from ≤ offset < from + size`.
unfoldable pub covering : ℕ → List MapedFile → Option MapedFile
covering offset [] = none
covering offset (f ∷ fs) =
    let rest = covering offset fs in
    if leb f.file_from_offset offset && ltb offset (f.file_from_offset + f.file_size)
    then some f
    else rest

-- The file at an index that counts from `k`.
at_index : ℕ → ℕ → List MapedFile → Option MapedFile
at_index d k fs = if ltb d k then none else get_elem? fs (d - k)

-- A multiple of the size is passed by an offset exactly when it is passed by its block.
block_le : (size d k r : ℕ) → r < size → leb (k * size) (d * size + r) ≡ leb k d
block_le size d k r h = elim (Bool-cases (leb k d)) [
  | inl le ↦
      let m : k * size ≤ d * size = mul-le-mul_right size (ground arith) in rw le (ground arith)
  | inr gt ↦
      let m : (d + 1) * size ≤ k * size = mul-le-mul_right size (ground arith) in
      let e : (d + 1) * size ≡ d * size + size = grind arith in rw gt (ground arith)
]

at_index-cons :
    (d k : ℕ) (f : MapedFile) (fs : List MapedFile)
    → (if leb k d && not (leb (k + 1) d) then some f else at_index d (k + 1) fs)
      ≡ at_index d k (f ∷ fs)
unfolding at_index
at_index-cons d k f fs = elim (Bool-cases (leb (k + 1) d)) [
  | inl later ↦
      let e : d - k ≡ suc (d - (k + 1)) = ground arith in
      let a : ltb d (k + 1) ≡ false = ground arith in
      let b : ltb d k ≡ false = ground arith in
      let c : leb k d ≡ true = ground arith in rw (at_index, a, b, c, later, e) refl
  | inr not_later ↦ elim (Bool-cases (leb k d)) [
    | inl now ↦
        let e : d - k ≡ 0 = ground arith in
        let b : ltb d k ≡ false = ground arith in rw (at_index, b, now, not_later, e) refl
    | inr before ↦
        let a : ltb d (k + 1) ≡ true = ground arith in
        let b : ltb d k ≡ true = ground arith in rw (at_index, a, b, before) refl
  ]
]

ltb-not-leb : (a b : ℕ) → ltb a b ≡ not (leb b a)
ltb-not-leb a b = ground arith

covering-at_index :
    (size d r k : ℕ) (fs : List MapedFile)
    → r < size
    → IsRun size (k * size) fs
    → covering (d * size + r) fs ≡ at_index d k fs
unfolding covering at_index
covering-at_index size d r k [] h run = ground arith
covering-at_index size d r k (f ∷ fs) h run =
    let e : k * size + size ≡ (k + 1) * size = grind arith in
    let rest = covering-at_index size d r (k + 1) fs h (subst (λ n. IsRun size n fs) e run.2) in
    let low = block_le size d k r h in
    let high = block_le size d (k + 1) r h in
    let e' : f.file_from_offset + f.file_size ≡ (k + 1) * size = omega (arith, e, run.0, run.1) in
    let offset = d * size + r in
    let t1 : leb f.file_from_offset offset ≡ leb k d = ap (λ n. leb n offset) run.0 ∙ low in
    let t2 : ltb offset (f.file_from_offset + f.file_size) ≡ not (leb (k + 1) d) =
      ap (ltb offset) e' ∙ ltb-not-leb offset ((k + 1) * size) ∙ ap not high in
    rw (covering, t1, t2, rest) (at_index-cons d k f fs)

get_elem?-lt :
    (fs : List MapedFile) (i : ℕ) → i < length fs → (f : MapedFile) × (get_elem? fs i ≡ some f)
get_elem?-lt [] i h = absurd (omega arith)
get_elem?-lt (f ∷ fs) zero h = (f, refl)
get_elem?-lt (f ∷ fs) (suc i) h = get_elem?-lt fs i (omega arith)

get_elem?-ge : (fs : List MapedFile) (i : ℕ) → length fs ≤ i → get_elem? fs i ≡ none
get_elem?-ge [] i h = refl
get_elem?-ge (f ∷ fs) zero h = absurd (omega arith)
get_elem?-ge (f ∷ fs) (suc i) h = get_elem?-ge fs i (omega arith)

-- The index finds nothing where no file covers the offset, and else the covering file.
IsFound : Option ℕ → List MapedFile → Option MapedFile → Type 0
IsFound none fs covered = covered ≡ none
IsFound (some i) fs covered = (f : MapedFile) × (get_elem? fs i ≡ some f) × (covered ≡ some f)

index_in-IsFound :
    (size offset : ℕ) (fs : List MapedFile)
    → 0 < size
    → BeginsAligned size fs
    → IsFound (index_in size offset fs) fs (covering offset fs)
unfolding IsFound index_in covering at_index
index_in-IsFound size offset [] h run = refl
index_in-IsFound size offset (first ∷ fs) h run =
    let d = offset / size in
    let k = first.file_from_offset / size in
    let whole : d * size + offset % size ≡ offset = div-add-mod' offset size in
    let start : k * size ≡ first.file_from_offset =
      omega (arith, div-add-mod' first.file_from_offset size, run.0) in
    let covered : covering offset (first ∷ fs) ≡ at_index d k (first ∷ fs) =
      subst (λ o. covering o (first ∷ fs) ≡ at_index d k (first ∷ fs)) whole
        (covering-at_index size d (offset % size) k (first ∷ fs) (mod-lt offset h)
          (subst (λ n. IsRun size n (first ∷ fs)) (sym start) run.1)) in
    elim (Bool-cases (ltb d k)) [
      | inl below ↦ rw (index_in, below) (covered ∙ (rw (at_index, below) refl))
      | inr above ↦ elim (Bool-cases (ltb (d - k) (length (first ∷ fs)))) [
        | inl within ↦
            let (f, e) = get_elem?-lt (first ∷ fs) (d - k) (ground arith) in
            rw (index_in, above, within) (f, e, covered ∙ (rw (at_index, above) e))
        | inr beyond ↦
            rw (index_in, above, beyond)
              (covered ∙ (rw (at_index, above) (get_elem?-ge (first ∷ fs) (d - k) (ground arith))))
      ]
    ]

-- For a queue whose files are contiguous, `findMapedFileByOffset` finds, by its index, exactly the
-- file whose range has the offset, and nil when there is none; told to return the first file
-- instead of nil it does so in exactly these cases.
pub find_maped_file_by_offset-eq-covering :
    (offset : ℕ) (return_first : Bool) (q : MapedFileQueue)
    → IsContiguous q
    → find_maped_file_by_offset offset return_first q ≡ elim (covering offset q.maped_files) [
      | none ↦ if return_first then get_elem? q.maped_files 0 else none
      | some f ↦ some f
    ]
unfolding find_maped_file_by_offset IsFound
find_maped_file_by_offset-eq-covering offset return_first q v =
    let found = index_in-IsFound q.maped_file_size offset q.maped_files v.sized v.run in
    elim (Option-cases (index_in q.maped_file_size offset q.maped_files)) [
      | inl nothing ↦
          let e : covering offset q.maped_files ≡ none = rw nothing at found in
          rw (find_maped_file_by_offset, nothing, e) refl
      | inr (i, at) ↦
          let (f, e1, e2) = rw at at found in rw (find_maped_file_by_offset, at, e1, e2) refl
    ]
