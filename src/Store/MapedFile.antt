-- ===== src/Store/MapedFile.antt =====
-- MapedFile with the ReferenceResource inside it (stgstorelog/maped_file.go,
-- stgstorelog/reference_resource.go) and SelectMapedBufferResult.
-- Each function is a whole call that no other call overlaps. `hold` locks a mutex that `shutdown` and
-- `release` of MapedFile do not, so in the code they may run between its two parts, the test of
-- `available` and `count_in`. Unmapping sets the bytes to nil; the file system is a parameter, the
-- answer of `os.Remove`. Offsets are natural numbers.
pub mod Holders
pub mod Race
use ttstringgolangiot.Base.{
  ℕ, ◌+◌, ◌-◌, ◌*◌, ◌/◌, Bool, true, false, not, ◌&&◌, Option, none, some, List, [], String, ltb,
  leb, ◌==◌, if◌then◌else◌, length, take, drop,
}
use ttstringgolangiot.Base.Int.{ℤ, pos, negsuc, ◌+ℤ◌, ◌-ℤ◌, ltb_ℤ}
use ttstringgolangiot.Store.Buffer.{MappedByteBuffer, Write, wrote, refused, out_of_range, write}

pub record MapedFile : Type 0 where
  pub ref_count : ℤ
  pub available : Bool
  pub cleanup_over : Bool
  pub first_shutdown_timestamp : ℕ
  pub file_name : String
  pub file_from_offset : ℕ
  pub file_size : ℕ
  pub mapped_byte_buffer : MappedByteBuffer
  pub wrote_position : ℕ
  pub committed_position : ℕ
  pub store_timestamp : ℕ
  pub first_create_in_queue : Bool

-- `refCount > 0`.
unfoldable pub is_held : ℤ → Bool
is_held n = ltb_ℤ (pos 0) n

-- `hold` after its test of `available`.
abbrev pub count_in : MapedFile → Bool × MapedFile
count_in f =
    if is_held (f.ref_count +ℤ pos 1)
    then (true, record f { ref_count = f.ref_count +ℤ pos 1 })
    else (false, record f { ref_count = (f.ref_count +ℤ pos 1) -ℤ pos 1 })

unfoldable pub hold : MapedFile → Bool × MapedFile
hold f = let counted = count_in f in if f.available then counted else (false, f)

unfoldable pub is_cleanup_over : MapedFile → Bool
is_cleanup_over f = not (is_held f.ref_count) && f.cleanup_over

abbrev pub unmap : MapedFile → MapedFile
unmap f = record f { mapped_byte_buffer = record (f.mapped_byte_buffer) { mmap_buf = [] } }

-- `cleanup`, with the new `cleanupOver`.
unfoldable pub cleanup : MapedFile → MapedFile
cleanup f =
    if f.available
    then record f { cleanup_over = false }
    else if is_cleanup_over f
    then record f { cleanup_over = true }
    else record (unmap f) { cleanup_over = true }

unfoldable pub release : MapedFile → MapedFile
release f =
    let f' : MapedFile = record f { ref_count = f.ref_count -ℤ pos 1 } in
    if is_held f'.ref_count then f' else cleanup f'

-- The second shutdown of a file that is still held is forced, when the interval has passed.
unfoldable pub shutdown : ℕ → ℕ → MapedFile → MapedFile
shutdown now interval_forcibly f =
    let closed : MapedFile = record f { available = false; first_shutdown_timestamp = now } in
    let forced : MapedFile = record f { ref_count = negsuc 999 -ℤ f.ref_count } in
    if f.available
    then release closed
    else if is_held f.ref_count && leb (f.first_shutdown_timestamp + interval_forcibly) now
    then release forced
    else f

-- `removed` is the answer of the file system.
unfoldable pub destroy : Bool → ℕ → ℕ → MapedFile → Bool × MapedFile
destroy removed now interval_forcibly f =
    let f' = shutdown now interval_forcibly f in
    if is_cleanup_over f' then (removed, unmap f') else (true, f')

unfoldable pub is_full : MapedFile → Bool
is_full f = f.file_size == f.wrote_position

abbrev pub os_page_size : ℕ
os_page_size = 1024 * 4

unfoldable pub is_able_to_flush : ℕ → MapedFile → Bool
is_able_to_flush flush_least_pages f =
    if is_full f
    then true
    else if ltb 0 flush_least_pages
    then leb flush_least_pages
        (f.wrote_position / os_page_size - f.committed_position / os_page_size)
    else ltb f.committed_position f.wrote_position

-- `Commit`: the flush itself is the operating system's.
unfoldable pub commit : ℕ → MapedFile → ℕ × MapedFile
commit flush_least_pages f =
    let (held, f') = hold f in
    let flushed : MapedFile =
      if held
      then release (record f' { committed_position = f'.wrote_position })
      else record f' { committed_position = f'.wrote_position } in
    if is_able_to_flush flush_least_pages f
    then (flushed.committed_position, flushed)
    else (f.committed_position, f)

-- `none` is a panic.
abbrev pub end_append : MapedFile → Write → Option (Bool × MapedFile)
end_append f (wrote n b) =
    some (true, record f { mapped_byte_buffer = b; wrote_position = f.wrote_position + n })
end_append f refused = some (false, f)
end_append f out_of_range = none

unfoldable pub append_message : List ℕ → MapedFile → Option (Bool × MapedFile)
append_message bytes f =
    if leb (f.wrote_position + length bytes) f.file_size
    then end_append f (write bytes f.mapped_byte_buffer)
    else some (false, f)

pub record SelectMapedBufferResult : Type 0 where
  pub start_offset : ℕ
  pub mapped_byte_buffer : MappedByteBuffer
  pub size : ℤ

-- Both give nil after they took hold when the bytes do not reach far enough. The bytes of a new
-- buffer are a slice whose capacity goes on to the end of the mapping.
unfoldable pub select_maped_buffer : ℕ → MapedFile → Option SelectMapedBufferResult × MapedFile
select_maped_buffer at f =
    let b : MappedByteBuffer = f.mapped_byte_buffer in
    let (held, f') = hold f in
    if ltb at f.wrote_position && held
    then if ltb (length b.mmap_buf) b.write_pos then (none, f') else (
      some (record {
        start_offset = f.file_from_offset + at;
        mapped_byte_buffer = record {
          mmap_buf = take b.write_pos b.mmap_buf;
          read_pos = at;
          write_pos = b.write_pos;
          limit = length b.mmap_buf;
        };
        size = pos b.write_pos -ℤ pos at;
      }),
      f',
    )
    else (none, f)

unfoldable pub select_maped_buffer_by_pos_and_size :
    ℕ → ℕ → MapedFile → Option SelectMapedBufferResult × MapedFile
select_maped_buffer_by_pos_and_size at size f =
    let b : MappedByteBuffer = f.mapped_byte_buffer in
    let (held, f') = hold f in
    if leb (at + size) f.wrote_position && held
    then if ltb (length b.mmap_buf) (at + size) then (none, f') else (
      some (record {
        start_offset = f.file_from_offset + at;
        mapped_byte_buffer = record {
          mmap_buf = take size (drop at b.mmap_buf);
          read_pos = 0;
          write_pos = size;
          limit = length b.mmap_buf - at;
        };
        size = pos size;
      }),
      f',
    )
    else (none, f)
