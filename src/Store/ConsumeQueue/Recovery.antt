-- ===== src/Store/ConsumeQueue/Recovery.antt =====
-- What a consume queue finds in its files: the recovery at the start, the last offset, the cut
-- after the commit log was cut and the least offset after old files went (recover, getLastOffset,
-- truncateDirtyLogicFiles and correctMinOffset of stgstorelog/consume_queue.go).
use ttstringgolangiot.Base.{
  ℕ, zero, suc, ◌+◌, ◌-◌, ◌/◌, Bool, not, ◌&&◌, Option, none, some, List, [], ◌∷◌, ltb, ◌==◌,
  if◌then◌else◌, length, take, drop, set,
}
use ttstringgolangiot.Base.Int.{ℤ, pos, negsuc, ◌+ℤ◌, ltb_ℤ}
use ttstringgolangiot.Store.Buffer.{MappedByteBuffer, new_mapped_byte_buffer, bytes_to_int}
use ttstringgolangiot.Store.MapedFile.{MapedFile, select_maped_buffer, release}
use ttstringgolangiot.Store.FileQueue.{last_file, truncate_dirty_files, delete_last_maped_file}
use ttstringgolangiot.Store.ConsumeQueue.{ConsumeQueue, read_unit, cq_store_unit_size}

-- `binary.Read` of `k` bytes: where they are not all there, the value stays 0 and nothing is left.
abbrev pub binary_read : ℕ → List ℕ → ℤ × List ℕ
binary_read k bytes =
    if ltb (length bytes) k then (pos 0, []) else (bytes_to_int k (take k bytes), drop k bytes)

abbrev pub is_valid_unit : ℤ → ℤ → Bool
is_valid_unit offset size = not (ltb_ℤ offset (pos 0)) && ltb_ℤ (pos 0) size

-- The units of a file of `size` bytes: the loops go by twenty from 0 while they are below it.
abbrev pub units_of : ℕ → ℕ
units_of size = (size + 19) / cq_store_unit_size

-- The inner loop of `recover`: how much of the file is valid, and the last offset in it.
pub recover_units : ℕ → List ℕ → ℕ → ℤ → ℕ × ℤ
recover_units zero bytes valid last = (valid, last)
recover_units (suc left) bytes valid last =
    let offset = binary_read 8 bytes in
    let size = binary_read 4 offset.1 in
    let tags_code = binary_read 8 size.1 in
    let rest = recover_units left tags_code.1 (valid + cq_store_unit_size) offset.0 in
    if is_valid_unit offset.0 size.0 then rest else (valid, last)

abbrev pub file_bytes : MapedFile → List ℕ
file_bytes f = take f.mapped_byte_buffer.write_pos f.mapped_byte_buffer.mmap_buf

-- The outer loop: a file that is valid to its end is followed by the next one.
pub recover_queue_files : ℕ → List MapedFile → ℤ → ℕ × ℤ
recover_queue_files size [] last = (0, last)
recover_queue_files size (f ∷ []) last =
    let found = recover_units (units_of size) (file_bytes f) 0 last in
    (f.file_from_offset + found.0, found.1)
recover_queue_files size (f ∷ g ∷ fs) last =
    let found = recover_units (units_of size) (file_bytes f) 0 last in
    let rest = recover_queue_files size (g ∷ fs) found.1 in
    if found.0 == size then rest else (f.file_from_offset + found.0, found.1)

module _ (removed : MapedFile → Bool) (now : ℕ) where
  pub recover : ConsumeQueue → ConsumeQueue
  recover q =
      let files = q.maped_file_queue.maped_files in
      let found =
        recover_queue_files q.maped_file_size (drop (length files - 3) files) q.max_physic_offset in
      let recovered : ConsumeQueue = record q {
        maped_file_queue = truncate_dirty_files removed now found.0 q.maped_file_queue;
        max_physic_offset = found.1;
      } in
      elim files [ [] ↦ q | f ∷ fs ↦ recovered ]

-- The loop of `getLastOffset`, over as many units as a file has.
unfoldable pub last_offset_in : ℕ → ℤ → MappedByteBuffer → Option ℤ
last_offset_in zero last b = some last
last_offset_in (suc left) last b = elim (read_unit b) [
  | none ↦ none
  | some (((offset, size), tags_code), b') ↦
      last_offset_in left (if is_valid_unit offset size then offset +ℤ size else last) b'
]

unfoldable pub get_last_offset : ConsumeQueue → Option ℤ
get_last_offset q = elim (last_file q.maped_file_queue.maped_files) [
  | none ↦ some (negsuc 0)
  | some f ↦
      let slice = drop (f.wrote_position - cq_store_unit_size) f.mapped_byte_buffer.mmap_buf in
      last_offset_in (units_of q.maped_file_size) (negsuc 0)
        (new_mapped_byte_buffer slice (length slice))
]

-- The inner loop of `truncateDirtyLogicFiles` in one file: it deletes the file, it returns with
-- the bytes that are kept and the last offset, or it comes to the end of the file without a return.
pub data Cut : Type 0 where
  deletes : Cut
  returns : ℕ → ℤ → Cut
  comes_to_end : ℕ → ℤ → Cut
  panics : Cut

pub cut_units : ℕ → ℤ → ℕ → ℕ → ℕ → ℤ → MappedByteBuffer → Cut
cut_units size phy_offset zero at kept last b = comes_to_end kept last
cut_units size phy_offset (suc left) at kept last b = elim (read_unit b) [
  | none ↦ panics
  | some (((offset, unit_size), tags_code), b') ↦
      let next = at + cq_store_unit_size in
      let rest = cut_units size phy_offset left next next offset b' in
      if at == 0
      then if ltb_ℤ offset phy_offset then rest else deletes
      else if not (is_valid_unit offset unit_size)
      then returns kept last
      else if not (ltb_ℤ offset phy_offset)
      then returns kept last
      else if next == size
      then returns next offset
      else rest
]

-- The positions of the file go back; the position of its buffer stays.
abbrev pub with_positions : ℕ → MapedFile → MapedFile
with_positions n f = record f { wrote_position = n; committed_position = n }

abbrev pub set_last : MapedFile → ConsumeQueue → ConsumeQueue
set_last f q = record q {
  maped_file_queue = record (q.maped_file_queue) {
    maped_files = set q.maped_file_queue.maped_files (length q.maped_file_queue.maped_files - 1) f;
  };
}

module _ (removed : MapedFile → Bool) (now : ℕ) where
  -- The outer loop, with a round for each file and one more. `none` is a panic, or the round that
  -- leaves everything as it was and is repeated for ever (a file of one unit).
  pub truncate_rounds : ℕ → ℤ → ConsumeQueue → Option ConsumeQueue
  truncate_rounds zero phy_offset q = none
  truncate_rounds (suc left) phy_offset q = elim (last_file q.maped_file_queue.maped_files) [
    | none ↦ some q
    | some f ↦
        elim (cut_units q.maped_file_size phy_offset (units_of q.maped_file_size) 0 0
          q.max_physic_offset (new_mapped_byte_buffer (file_bytes f) (length (file_bytes f)))) [
            | deletes ↦ truncate_rounds left phy_offset (record q {
              maped_file_queue = delete_last_maped_file removed now q.maped_file_queue;
            })
            | returns kept last ↦
                some (set_last (with_positions kept f) (record q { max_physic_offset = last }))
            | comes_to_end kept last ↦ none
            | panics ↦ none
          ]
  ]

  pub truncate_dirty_logic_files : ℤ → ConsumeQueue → Option ConsumeQueue
  truncate_dirty_logic_files phy_offset q =
      truncate_rounds (length q.maped_file_queue.maped_files + 1) phy_offset q

-- `correctMinOffset`: the first unit of the first file whose message is still there.
unfoldable pub first_unit_from : ℕ → ℤ → ℕ → MappedByteBuffer → Option (Option ℕ)
first_unit_from zero phy_min at b = some none
first_unit_from (suc left) phy_min at b = elim (read_unit b) [
  | none ↦ none
  | some (((offset, size), tags_code), b') ↦
      let rest = first_unit_from left phy_min (at + cq_store_unit_size) b' in
      if ltb_ℤ offset phy_min then rest else some (some at)
]

abbrev pub as_length : ℤ → ℕ
as_length (pos n) = n
as_length (negsuc n) = 0

abbrev pub with_min_offset : MapedFile → Option ℕ → ConsumeQueue → ConsumeQueue
with_min_offset f none q = q
with_min_offset f (some at) q = record q { min_logic_offset = f.file_from_offset + at }

unfoldable pub correct_min_offset : ℤ → ConsumeQueue → Option ConsumeQueue
correct_min_offset phy_min q = elim (q.maped_file_queue.maped_files) [
  | [] ↦ some q
  | f ∷ fs ↦
      let selected = select_maped_buffer 0 f in
      let held : MapedFile → ConsumeQueue =
        λ g. record q { maped_file_queue = record (q.maped_file_queue) { maped_files = g ∷ fs } } in
      elim (selected.0) [
        | none ↦ some (held selected.1)
        | some result ↦
            elim (first_unit_from (units_of (as_length result.size)) phy_min 0
              result.mapped_byte_buffer) [
                | none ↦ none
                | some at ↦ some (with_min_offset f at (held (release selected.1)))
              ]
      ]
]
