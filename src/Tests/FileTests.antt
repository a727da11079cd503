-- ===== src/Tests/FileTests.antt =====
-- A mapped file with a reader, and a queue of two files.
use ttstringgolangiot.Base.{
  ℕ, ◌+◌, ◌≡◌, ◌≢◌, refl, true, false, Option, none, some, List, [], ◌∷◌, ◌++◌, arith, String,
  replicate, if◌then◌else◌, get_elem?,
}
use ttstringgolangiot.Base.Int.{pos}
use ttstringgolangiot.Store.MapedFile.{MapedFile, hold, is_held, release, shutdown, is_cleanup_over}
use ttstringgolangiot.Store.MapedFile.Holders.{
  Held, take_hold, let_go, close, Reach, here, next, Reach-mapped,
}
use ttstringgolangiot.Store.MapedFile.Race
use ttstringgolangiot.Store.MapedFile.Race.{Racing, hold-unmapped}
use ttstringgolangiot.Store.FileQueue.{
  MapedFileQueue, get_last_maped_file, find_maped_file_by_offset, truncate_dirty_files,
  get_max_offset, truncate_files,
}
use ttstringgolangiot.Store.FileQueue.Contiguous.{
  IsContiguous, Creates, get_last_maped_file-IsContiguous,
}
use ttstringgolangiot.Store.FileQueue.Find.{covering, find_maped_file_by_offset-eq-covering}
use ttstringgolangiot.Store.FileQueue.Truncate.{
  HasUniqueNames, gone, behind, truncate_dirty_files_lem,
}
use ttstringgolangiot.Store.FileQueue.UpTo.{up_to}

abbrev file_at : String → ℕ → ℕ → MapedFile
file_at name from wrote = record {
  ref_count = pos 1;
  available = true;
  cleanup_over = false;
  first_shutdown_timestamp = 0;
  file_name = name;
  file_from_offset = from;
  file_size = 100;
  mapped_byte_buffer = record {
    mmap_buf = replicate 100 1;
    read_pos = 0;
    write_pos = wrote;
    limit = 100;
  };
  wrote_position = wrote;
  committed_position = 0;
  store_timestamp = 0;
  first_create_in_queue = false;
}

abbrev new_file : Held
new_file = record { file = file_at "0" 0 0; readers = 0 }

-- A reader takes hold, the owner shuts the file down and the reader releases.
abbrev closed_file : Held
closed_file = record { file = release (shutdown 5 3 (hold (new_file.file)).1); readers = 0 }

new_file-closed : Reach new_file closed_file
unfolding hold is_held ttstringgolangiot.Base.Int.◌+ℤ◌
new_file-closed =
    next
      (next (next here (take_hold new_file refl))
        (close (record { file = (hold (new_file.file)).1; readers = 1 }) 5 3 refl))
      (let_go (shutdown 5 3 (hold (new_file.file)).1) 0)

Reach-mapped_example :
    (closed_file.readers ≢ 0
      → closed_file.file.mapped_byte_buffer.mmap_buf ≡ new_file.file.mapped_byte_buffer.mmap_buf)
    × (closed_file.file.available ≡ true
        → closed_file.file.mapped_byte_buffer.mmap_buf ≡ new_file.file.mapped_byte_buffer.mmap_buf)
    × (closed_file.file.available ≡ false
        → closed_file.readers ≡ 0
        → (is_cleanup_over closed_file.file ≡ true)
          × (closed_file.file.mapped_byte_buffer.mmap_buf ≡ []))
Reach-mapped_example = Reach-mapped new_file closed_file (refl, refl, refl, refl) new_file-closed

abbrev new_racing : Racing
new_racing = record { file = new_file.file; readers = 0; has_seen = false }

hold-unmapped_example :
    (t : Racing) × Race.Reach new_racing t
    × (t.readers ≡ 1)
    × (t.file.mapped_byte_buffer.mmap_buf ≡ [])
hold-unmapped_example = hold-unmapped new_racing 5 3 (refl, refl, refl, refl, refl)

abbrev two_files : MapedFileQueue
two_files = record {
  delete_files_batch_max = 10;
  maped_file_size = 100;
  maped_files = file_at "0" 0 100 ∷ file_at "100" 100 100 ∷ [];
  committed_where = 0;
  store_timestamp = 0;
}

two_files-IsContiguous : IsContiguous two_files
two_files-IsContiguous = record {
  sized = omega arith;
  run = ((omega arith), (refl, refl, (refl, refl, tt)));
}

abbrev creates_files : ℕ → ℕ → Option MapedFile
creates_files offset size = some (record (file_at "new" offset 0) { file_size = size })

creates_files-Creates : Creates creates_files
creates_files-Creates offset size f e = (ground arith, ground arith)

get_last_maped_file-IsContiguous_example :
    IsContiguous (get_last_maped_file creates_files 0 two_files).1
get_last_maped_file-IsContiguous_example =
    get_last_maped_file-IsContiguous creates_files creates_files-Creates 0 two_files
      two_files-IsContiguous

find_maped_file_by_offset-eq-covering_example :
    find_maped_file_by_offset 150 false two_files ≡ elim (covering 150 two_files.maped_files) [
      | none ↦ if false then get_elem? two_files.maped_files 0 else none
      | some f ↦ some f
    ]
find_maped_file_by_offset-eq-covering_example =
    find_maped_file_by_offset-eq-covering 150 false two_files two_files-IsContiguous

two_files-HasUniqueNames : HasUniqueNames two_files.maped_files
unfolding HasUniqueNames ttstringgolangiot.Store.FileQueue.Truncate.has_name
two_files-HasUniqueNames = (refl, (refl, tt))

truncate_dirty_files_lem_example :
    ((truncate_dirty_files (λ f. true) 7 40 two_files).maped_files
      ≡ up_to 100 40 two_files.maped_files)
    × (truncate_files (λ f. true) 7 100 40 two_files.maped_files ≡ (
      up_to 100 40 two_files.maped_files ++ gone (λ f. true) 7 (behind 40 two_files.maped_files),
      behind 40 two_files.maped_files,
    ))
    × ((g : MapedFile)
        → covering 40 two_files.maped_files ≡ some g
        → get_max_offset (truncate_dirty_files (λ f. true) 7 40 two_files) ≡ 40)
truncate_dirty_files_lem_example =
    truncate_dirty_files_lem (λ f. true) 7 40 two_files two_files-IsContiguous
      two_files-HasUniqueNames
