-- ===== src/Store/Recovery/Abnormal.antt =====
-- Recovery of the commit log after a stop that was not orderly (recoverAbnormally of
-- stgstorelog/commit_log.go). It starts in the last file that `isMapedFileMatchedRecover` takes, or
-- in the first one. The index is counted down once too often, so that the file after the first is
-- that file once more.
use ttstringgolangiot.Base.{
  ℕ, zero, suc, ◌+◌, ◌≤◌, ◌<◌, ◌≢◌, ap, inl, inr, Bool, true, false, Option, none, some, List, [],
  ◌∷◌, ◌++◌, arith, length, length-take, drop, Option-cases,
}
use ttstringgolangiot.Store.Buffer.{MappedByteBuffer}
use ttstringgolangiot.Store.MapedFile.{MapedFile}
use ttstringgolangiot.Store.FileQueue.{truncate_dirty_files}
use ttstringgolangiot.Store.Check.{CheckContext, DispatchRequest, check_message_and_return_size}
use ttstringgolangiot.Store.CommitLog.{CommitLog}
use ttstringgolangiot.Store.Recovery.{
  goes_on, ends, next_file, round_of, reader_of, unread, unread_of_files, Checkpoint,
  is_maped_file_matched_recover,
}
use ttstringgolangiot.Store.Recovery.Ends.{check_moves, Round-cases, List-cases}

pub data Found : Type 0 where
  offset_found : ℕ → List DispatchRequest → Found
  read_panics : Found
  no_fuel : Found

-- A request with a size goes to the dispatch service.
abbrev pub dispatch_if : ℕ → DispatchRequest → List DispatchRequest → List DispatchRequest
dispatch_if zero request requests = requests
dispatch_if (suc n) request requests = requests ++ (request ∷ [])

-- The loop, with the files that come after it and what was dispatched.
unfoldable pub abnormal_loop :
    CheckContext
    → Bool
    → ℕ
    → MappedByteBuffer
    → ℕ
    → ℕ
    → List MapedFile
    → List DispatchRequest
    → Found
abnormal_loop ctx check_crc zero b from done files requests = no_fuel
abnormal_loop ctx check_crc (suc fuel) b from done files requests =
    elim (check_message_and_return_size ctx check_crc true b) [
      | none ↦ read_panics
      | some (request, b') ↦ elim (round_of request.msg_size) [
        | goes_on n ↦
            abnormal_loop ctx check_crc fuel b' from (done + n) files
              (dispatch_if n request requests)
        | ends ↦ offset_found (from + done) requests
        | next_file ↦ elim files [
          | [] ↦ offset_found (from + done) requests
          | f ∷ fs ↦ abnormal_loop ctx check_crc fuel (reader_of f) f.file_from_offset 0 fs requests
        ]
      ]
    ]

-- How many files stand before the last one that matches; the first one when none does. `none` is
-- a panic. The code tries the files from the last to the first.
unfoldable pub start_index : Checkpoint → List MapedFile → Option (Option ℕ)
start_index c [] = some none
start_index c (f ∷ fs) = elim (start_index c fs) [
  | none ↦ none
  | some (some n) ↦ some (some (suc n))
  | some none ↦ elim (is_maped_file_matched_recover c f) [
    | none ↦ none
    | some true ↦ some (some 0)
    | some false ↦ some none
  ]
]

abbrev pub or_first : Option ℕ → ℕ
or_first none = 0
or_first (some n) = n

-- The files that are read: the first of these, and then all of these, the first one again.
unfoldable pub abnormal_files : CheckContext → Bool → ℕ → List MapedFile → Found
abnormal_files ctx check_crc fuel [] = offset_found 0 []
abnormal_files ctx check_crc fuel (f ∷ fs) =
    abnormal_loop ctx check_crc fuel (reader_of f) f.file_from_offset 0 (f ∷ fs) []

abbrev pub abnormal_fuel : List MapedFile → ℕ
abnormal_fuel files = unread_of_files files + unread_of_files files + 1

module _ (removed : MapedFile → Bool) (now : ℕ) where
  abbrev end_abnormally : CommitLog → Found → Option (CommitLog × Option ℕ)
  end_abnormally log (offset_found offset requests) = some (
    record log {
      maped_file_queue =
          truncate_dirty_files removed now offset
            (record (log.maped_file_queue) { committed_where = offset });
      dispatched = log.dispatched ++ requests;
    },
    some offset,
  )
  end_abnormally log read_panics = none
  end_abnormally log no_fuel = none

  -- With the offset at which the queues are cut after it, none when there is no file.
  unfoldable pub recover_abnormally :
      CheckContext → Checkpoint → Bool → CommitLog → Option (CommitLog × Option ℕ)
  recover_abnormally ctx checkpoint check_crc log =
      let files = log.maped_file_queue.maped_files in
      let from_start : Option (CommitLog × Option ℕ) = elim (start_index checkpoint files) [
        | none ↦ none
        | some n ↦
            end_abnormally log
              (abnormal_files ctx check_crc (abnormal_fuel files) (drop (or_first n) files))
      ] in
      elim files [ [] ↦ some (log, none) | f ∷ fs ↦ from_start ]

unread-reader_of : (f : MapedFile) → unread (reader_of f) ≤ length f.mapped_byte_buffer.mmap_buf
unread-reader_of f =
    omega (arith, length-take f.mapped_byte_buffer.write_pos f.mapped_byte_buffer.mmap_buf)

abnormal_loop-ends :
    (ctx : CheckContext) (check_crc : Bool) (fuel : ℕ) (b : MappedByteBuffer) (from done : ℕ)
    (files : List MapedFile) (requests : List DispatchRequest)
    → unread b + unread_of_files files < fuel
    → abnormal_loop ctx check_crc fuel b from done files requests ≢ no_fuel
unfolding abnormal_loop
abnormal_loop-ends ctx check_crc zero b from done files requests h = absurd (omega arith)
abnormal_loop-ends ctx check_crc (suc fuel) b from done files requests h =
    elim (Option-cases (check_message_and_return_size ctx check_crc true b)) [
      | inl e ↦ rw (abnormal_loop, e) (λ p. cc)
      | inr ((request, b'), e) ↦ elim (check_moves ctx check_crc true b b' request e) [
        | inl last ↦ rw (abnormal_loop, e, last) (λ p. cc)
        | inr less ↦ elim (Round-cases (round_of request.msg_size)) [
          | inl last ↦ rw (abnormal_loop, e, last) (λ p. cc)
          | inr (inl (n, on)) ↦
              let ih =
                abnormal_loop-ends ctx check_crc fuel b' from (done + n) files
                  (dispatch_if n request requests) (omega (arith, less)) in
              rw (abnormal_loop, e, on) ih
          | inr (inr next) ↦ elim (List-cases files) [
            | inl none_left ↦ rw (abnormal_loop, e, next, none_left) (λ p. cc)
            | inr (f, fs, some_left) ↦
                let ih =
                  abnormal_loop-ends ctx check_crc fuel (reader_of f) f.file_from_offset 0 fs
                    requests
                    (omega (arith, less, ap unread_of_files some_left, h, unread-reader_of f)) in
                rw (abnormal_loop, e, next, some_left) ih
          ]
        ]
      ]
    ]

unread_of_drop :
    (n : ℕ) (files : List MapedFile) → unread_of_files (drop n files) ≤ unread_of_files files
unread_of_drop zero files = omega arith
unread_of_drop (suc n) [] = omega arith
unread_of_drop (suc n) (f ∷ fs) = omega (arith, unread_of_drop n fs)

abnormal_files_end :
    (ctx : CheckContext) (check_crc : Bool) (fuel : ℕ) (files : List MapedFile)
    → unread_of_files files + unread_of_files files < fuel
    → abnormal_files ctx check_crc fuel files ≢ no_fuel
unfolding abnormal_files
abnormal_files_end ctx check_crc fuel [] h = λ p. cc
abnormal_files_end ctx check_crc fuel (f ∷ fs) h =
    abnormal_loop-ends ctx check_crc fuel (reader_of f) f.file_from_offset 0 (f ∷ fs) []
      (omega (arith, h, unread-reader_of f))

-- Whatever the files hold and wherever the recovery starts, its loop ends within the fuel that it
-- is given, although the first file is read twice: it finds an offset or it panics.
pub abnormal_files-drop :
    (ctx : CheckContext) (check_crc : Bool) (n : ℕ) (files : List MapedFile)
    → abnormal_files ctx check_crc (abnormal_fuel files) (drop n files) ≢ no_fuel
abnormal_files-drop ctx check_crc n files =
    abnormal_files_end ctx check_crc (abnormal_fuel files) (drop n files)
      (omega (arith, unread_of_drop n files))
