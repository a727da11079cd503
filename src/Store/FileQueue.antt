-- ===== src/Store/FileQueue.antt =====
-- MapedFileQueue (stgstorelog/mapedfile_queue.go): the files of one log, in the order of their
-- offsets. A file is changed in place, so an operation on one gives the list with the new file.
-- Offsets are natural numbers and the size of a file is not 0. Creating a file (on disk, or by the
-- service that allocates ahead) and the answers of `os.Remove` and `os.Stat` are parameters.
pub mod Contiguous
pub mod Find
pub mod Last
pub mod UpTo
pub mod Truncate
use ttstringgolangiot.Base.{
  ℕ, zero, suc, ◌+◌, ◌-◌, ◌/◌, ◌%◌, Bool, true, false, ◌||◌, Option, none, some, List, [], ◌∷◌,
  ◌++◌, String, ltb, leb, ◌==◌, if◌then◌else◌, length, get_elem?, set, string_eq, ◌≟◌,
}
use ttstringgolangiot.Base.Int.{ℤ, pos, negsuc, ◌-ℤ◌}
use ttstringgolangiot.Store.MapedFile.{MapedFile, is_full, destroy, commit}

pub record MapedFileQueue : Type 0 where
  pub delete_files_batch_max : ℕ
  pub maped_file_size : ℕ
  pub maped_files : List MapedFile
  pub committed_where : ℕ
  pub store_timestamp : ℕ

-- `NewMapedFileQueue`.
pub new_maped_file_queue : ℕ → MapedFileQueue
new_maped_file_queue size = record {
  delete_files_batch_max = 10;
  maped_file_size = size;
  maped_files = [];
  committed_where = 0;
  store_timestamp = 0;
}

abbrev pub last_file : List MapedFile → Option MapedFile
last_file [] = none
last_file (f ∷ []) = some f
last_file (f ∷ g ∷ fs) = last_file (g ∷ fs)

abbrev pub get_first_maped_file : MapedFileQueue → Option MapedFile
get_first_maped_file q = get_elem? q.maped_files 0

-- `getLastMapedFile2` and `getLastAndLastMapedFile`.
abbrev pub get_last_maped_file2 : MapedFileQueue → Option MapedFile
get_last_maped_file2 q = last_file q.maped_files

-- `copyMapedFiles`: as many nil as there are files, and then the files; or nil.
pub copy_maped_files : ℕ → MapedFileQueue → Option (List (Option MapedFile))
copy_maped_files reserved q =
    if leb (length q.maped_files) reserved
    then none
    else some (nils q.maped_files ++ present q.maped_files)
  where
    nils : List MapedFile → List (Option MapedFile)
    nils [] = []
    nils (f ∷ fs) = none ∷ nils fs

    present : List MapedFile → List (Option MapedFile)
    present [] = []
    present (f ∷ fs) = some f ∷ present fs

-- `modified` is the time of the last write to a file, if the file system knows it.
pub first_modified :
    (MapedFile → Option ℕ) → ℕ → Option MapedFile → List (Option MapedFile) → Option MapedFile
first_modified modified timestamp last [] = last
first_modified modified timestamp last (none ∷ fs) = first_modified modified timestamp none fs
first_modified modified timestamp last (some f ∷ fs) =
    let rest = first_modified modified timestamp (some f) fs in
    elim (modified f) [ none ↦ rest | some time ↦ if leb timestamp time then some f else rest ]

pub get_maped_file_by_time : (MapedFile → Option ℕ) → ℕ → MapedFileQueue → Option MapedFile
get_maped_file_by_time modified timestamp q = elim (copy_maped_files 0 q) [
  | none ↦ none
  | some files ↦ first_modified modified timestamp none files
]

-- `deleteExpiredFile`: for each file, the first one of its name goes, since `Remove` ends the
-- inner loop by the element's cleared link.
unfoldable pub remove_name : String → List MapedFile → List MapedFile
remove_name name [] = []
remove_name name (f ∷ fs) =
    let rest = remove_name name fs in if name ≟ f.file_name then fs else f ∷ rest

unfoldable pub delete_expired_file : List MapedFile → List MapedFile → List MapedFile
delete_expired_file [] fs = fs
delete_expired_file (d ∷ ds) fs = delete_expired_file ds (remove_name d.file_name fs)

-- What one round of `truncateDirtyFiles` does with a file.
abbrev pub cut_at : ℕ → MapedFile → MapedFile
cut_at at f = record f {
  wrote_position = at;
  committed_position = at;
  mapped_byte_buffer = record (f.mapped_byte_buffer) { write_pos = at };
}

module _ (removed : MapedFile → Bool) (now : ℕ) where
  -- The files as the loop leaves them, and those that will be removed.
  unfoldable pub truncate_files : ℕ → ℕ → List MapedFile → List MapedFile × List MapedFile
  truncate_files size offset [] = ([], [])
  truncate_files size offset (f ∷ fs) =
      let rest : List MapedFile × List MapedFile = truncate_files size offset fs in
      if ltb offset (f.file_from_offset + f.file_size)
      then if leb f.file_from_offset offset
        then (cut_at (offset % size) f ∷ rest.0, rest.1)
        else ((destroy (removed f) now 1000 f).1 ∷ rest.0, f ∷ rest.1)
      else (f ∷ rest.0, rest.1)

  unfoldable pub truncate_dirty_files : ℕ → MapedFileQueue → MapedFileQueue
  truncate_dirty_files offset q =
      let cut : List MapedFile × List MapedFile =
        truncate_files q.maped_file_size offset q.maped_files in
      record q { maped_files = delete_expired_file cut.1 cut.0 }

  -- `deleteLastMapedFile`.
  pub without_last : List MapedFile → List MapedFile
  without_last [] = []
  without_last (f ∷ []) = []
  without_last (f ∷ g ∷ fs) = f ∷ without_last (g ∷ fs)

  pub delete_last_maped_file : MapedFileQueue → MapedFileQueue
  delete_last_maped_file q = record q { maped_files = without_last q.maped_files }

  -- `deleteExpiredFileByTime`: `left` counts the files that the batch still takes. The last file
  -- is written to and stays. The result is the files that are deleted, and all of them.
  pub expire_by_time : ℕ → ℕ → Bool → ℕ → List MapedFile → List MapedFile × List MapedFile
  expire_by_time expired_time interval clean_immediately zero fs = ([], fs)
  expire_by_time expired_time interval clean_immediately (suc left) [] = ([], [])
  expire_by_time expired_time interval clean_immediately (suc left) (f ∷ []) = ([], f ∷ [])
  expire_by_time expired_time interval clean_immediately (suc left) (f ∷ g ∷ fs) =
      let skip : List MapedFile × List MapedFile =
        expire_by_time expired_time interval clean_immediately (suc left) (g ∷ fs) in
      let take_it : List MapedFile × List MapedFile =
        expire_by_time expired_time interval clean_immediately left (g ∷ fs) in
      let gone : Bool × MapedFile = destroy (removed f) now interval f in
      if ltb (f.store_timestamp + expired_time) now || clean_immediately
      then if gone.0 then (gone.1 ∷ take_it.0, gone.1 ∷ take_it.1) else ([], gone.1 ∷ g ∷ fs)
      else (skip.0, f ∷ skip.1)

  pub delete_expired_file_by_time : ℕ → ℕ → Bool → MapedFileQueue → ℕ × MapedFileQueue
  delete_expired_file_by_time expired_time interval clean_immediately q =
      let swept : List MapedFile × List MapedFile =
        expire_by_time expired_time interval clean_immediately (max_one q.delete_files_batch_max)
          q.maped_files in
      (length (swept.0), record q { maped_files = delete_expired_file (swept.0) (swept.1) })
    where
      -- The bound is tested after a file is taken.
      max_one : ℕ → ℕ
      max_one zero = 1
      max_one (suc n) = suc n

  -- `retryDeleteFirstFile`.
  pub retry_delete_first_file : ℕ → MapedFileQueue → Bool × MapedFileQueue
  retry_delete_first_file interval q = elim (q.maped_files) [
    | [] ↦ (false, q)
    | f ∷ fs ↦
        let gone : Bool × MapedFile = destroy (removed f) now interval f in
        if f.available
        then (false, q)
        else if gone.0
        then (true, record q { maped_files = remove_name f.file_name (gone.1 ∷ fs) })
        else (false, record q { maped_files = gone.1 ∷ fs })
  ]

-- `findMapedFileByOffset`, with the index of the file; a negative index finds nothing.
abbrev pub index_of_offset : ℕ → ℕ → MapedFile → ℕ
index_of_offset size offset first = offset / size - first.file_from_offset / size

unfoldable pub index_in : ℕ → ℕ → List MapedFile → Option ℕ
index_in size offset [] = none
index_in size offset (first ∷ fs) =
    if ltb (offset / size) (first.file_from_offset / size)
    then none
    else if ltb (index_of_offset size offset first) (length (first ∷ fs))
    then some (index_of_offset size offset first)
    else none

abbrev pub find_index : ℕ → MapedFileQueue → Option ℕ
find_index offset q = index_in q.maped_file_size offset q.maped_files

unfoldable pub find_maped_file_by_offset : ℕ → Bool → MapedFileQueue → Option MapedFile
find_maped_file_by_offset offset return_first q = elim (find_index offset q) [
  | none ↦ if return_first then get_first_maped_file q else none
  | some i ↦ get_elem? q.maped_files i
]

-- `getMinOffset` asserts that the list holds files by value, and panics (`none`) where it has one.
pub get_min_offset : MapedFileQueue → Option ℤ
get_min_offset q = elim (q.maped_files) [ [] ↦ some (negsuc 0) | f ∷ fs ↦ none ]

unfoldable pub get_max_offset : MapedFileQueue → ℕ
get_max_offset q = elim (last_file q.maped_files) [
  | none ↦ 0
  | some f ↦ f.file_from_offset + f.wrote_position
]

-- `commit`: the file that the offset falls in, or the first one.
pub commit_queue : ℕ → MapedFileQueue → Bool × MapedFileQueue
commit_queue flush_least_pages q = elim (find_maped_file_by_offset q.committed_where true q) [
  | none ↦ (true, q)
  | some f ↦
      let done : ℕ × MapedFile = commit flush_least_pages f in
      let where_ = f.file_from_offset + done.0 in
      (
        where_ == q.committed_where,
        record q {
          maped_files =
              set q.maped_files (elim (find_index q.committed_where q) [ none ↦ 0 | some i ↦ i ])
                (done.1);
          committed_where = where_;
          store_timestamp = if flush_least_pages == 0 then f.store_timestamp else q.store_timestamp;
        },
      )
]

-- The file that `getLastMapedFile` creates: where it begins, if it creates one.
unfoldable pub create_offset : ℕ → MapedFileQueue → Option ℕ
create_offset start q = elim (last_file q.maped_files) [
  | none ↦ some (start - start % q.maped_file_size)
  | some f ↦ if is_full f then some (f.file_from_offset + q.maped_file_size) else none
]

abbrev pub is_first : List MapedFile → Bool
is_first [] = true
is_first (f ∷ fs) = false

module _ (create : ℕ → ℕ → Option MapedFile) where
  -- `none` is the error of the creation.
  unfoldable pub get_last_maped_file : ℕ → MapedFileQueue → Option MapedFile × MapedFileQueue
  get_last_maped_file start q = elim (create_offset start q) [
    | none ↦ (last_file q.maped_files, q)
    | some offset ↦ elim (create offset q.maped_file_size) [
      | none ↦ (none, q)
      | some f ↦
          let f' : MapedFile = record f {
            first_create_in_queue =
                if is_first q.maped_files then true else f.first_create_in_queue;
          } in
          (some f', record q { maped_files = q.maped_files ++ f' ∷ [] })
    ]
  ]

  -- `howMuchFallBehind`; a full last file is followed by a new one. `none` is a nil file.
  pub how_much_fall_behind : MapedFileQueue → Option ℤ × MapedFileQueue
  how_much_fall_behind q =
      let last : Option MapedFile × MapedFileQueue = get_last_maped_file 0 q in
      elim (q.maped_files) [
        | [] ↦ (some (pos 0), q)
        | f ∷ fs ↦ if q.committed_where == 0 then (some (pos 0), q) else elim (last.0) [
          | none ↦ (none, last.1)
          | some g ↦
              (some (pos (g.file_from_offset + g.wrote_position) -ℤ pos q.committed_where), last.1)
        ]
      ]
