-- ===== src/Store/FileQueue/Last.antt =====
-- The last file of a queue while it has room.
use ttstringgolangiot.Base.{ℕ, ◌<◌, ◌≡◌, refl, false, Option, some, arith}
use ttstringgolangiot.Store.MapedFile.{MapedFile, is_full}
use ttstringgolangiot.Store.FileQueue.{
  MapedFileQueue, last_file, create_offset, get_last_maped_file,
}

pub get_last_maped_file_open :
    (create : ℕ → ℕ → Option MapedFile) (start : ℕ) (q : MapedFileQueue) (f : MapedFile)
    → last_file q.maped_files ≡ some f
    → f.wrote_position < f.file_size
    → get_last_maped_file create start q ≡ (some f, q)
unfolding get_last_maped_file create_offset is_full
get_last_maped_file_open create start q f last room =
    let open_file : is_full f ≡ false = ground arith in
    rw (get_last_maped_file, create_offset, last, open_file, last) refl
