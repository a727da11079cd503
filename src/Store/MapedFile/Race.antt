-- ===== src/Store/MapedFile/Race.antt =====
-- Readers and the owner of a file when `shutdown` runs between the two parts of `hold`
-- (stgstorelog/reference_resource.go and stgstorelog/maped_file.go): `hold` has its mutex then, and
-- `shutdown` and `release` of MapedFile do not ask for it.
use ttstringgolangiot.Base.{ℕ, suc, ◌+◌, ◌≡◌, refl, Bool, true, false, [], arith}
use ttstringgolangiot.Base.Int.{pos, ◌+ℤ◌}
use ttstringgolangiot.Store.MapedFile.{MapedFile, is_held, release, shutdown, count_in}
use ttstringgolangiot.Store.MapedFile.Holders.{release-last, one_more}

-- A file, the readers that have a hold on it, and whether one has found it available and not yet
-- counted itself: the mutex of `hold` lets one in at a time.
pub record Racing : Type 0 where
  pub file : MapedFile
  pub readers : ℕ
  pub has_seen : Bool

pub data Step : Racing → Racing → Type 0 where
  sees :
      (s : Racing)
      → s.has_seen ≡ false
      → s.file.available ≡ true
      → Step s (record s { has_seen = true })
  counts :
      (s : Racing)
      → s.has_seen ≡ true
      → (count_in s.file).0 ≡ true
      → Step s (record { file = (count_in s.file).1; readers = s.readers + 1; has_seen = false })
  lets_go :
      (f : MapedFile) (n : ℕ) (seen : Bool)
      → Step
          (record { file = f; readers = suc n; has_seen = seen })
          (record { file = release f; readers = n; has_seen = seen })
  closes :
      (s : Racing) (now interval : ℕ)
      → s.file.available ≡ true
      → Step s (record s { file = shutdown now interval s.file })

pub data Reach (s : Racing) : Racing → Type 0 where
  here : Reach s s
  next : {t u : Racing} → Reach s t → Step t u → Reach s u

abbrev pub IsNew : Racing → Type 0
IsNew s =
    (s.readers ≡ 0)
    × (s.has_seen ≡ false)
    × (s.file.available ≡ true)
    × (s.file.ref_count ≡ pos 1)
    × (s.file.cleanup_over ≡ false)

shutdown-new :
    (s : Racing) (now interval : ℕ)
    → IsNew s
    → ((shutdown now interval s.file).ref_count ≡ pos 0)
      × ((shutdown now interval s.file).mapped_byte_buffer.mmap_buf ≡ [])
unfolding shutdown
shutdown-new s now interval (none_read, unseen, open_, one, clean) =
    let closed : MapedFile = record (s.file) {
      available = false;
      first_shutdown_timestamp = now;
    } in
    rw (shutdown, open_, release-last closed one refl clean) (refl, refl)

-- From every new file, whenever it is shut down, a reader can come to have a hold on it while its
-- bytes are unmapped: the reader finds the file available, the owner shuts it down, and then the
-- reader counts itself in.
pub hold-unmapped :
    (s : Racing) (now interval : ℕ)
    → IsNew s
    → (t : Racing) × Reach s t × (t.readers ≡ 1) × (t.file.mapped_byte_buffer.mmap_buf ≡ [])
unfolding is_held
hold-unmapped s now interval new =
    let (count, bytes) = shutdown-new s now interval new in
    let seen : Racing = record s { has_seen = true } in
    let closed : Racing = record seen { file = shutdown now interval s.file } in
    let one : (closed.file.ref_count +ℤ pos 1) ≡ pos 1 = rw count (one_more 0) in
    let held : (count_in closed.file).0 ≡ true = rw one refl in
    (
      record { file = (count_in closed.file).1; readers = s.readers + 1; has_seen = false },
      next (next (next here (sees s new.1 new.2)) (closes seen now interval new.2))
          (counts closed refl held),
      omega (arith, new.0),
      rw one bytes,
    )
