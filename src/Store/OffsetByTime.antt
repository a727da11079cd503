-- ===== src/Store/OffsetByTime.antt =====
-- The search of a consume queue for the offset of a time (getOffsetInQueueByTime of
-- stgstorelog/consume_queue.go and getMapedFileByTime of stgstorelog/mapedfile_queue.go). When a
-- file was changed is a parameter, in milliseconds, none after an error.
use ttstringgolangiot.Base.{
  ℕ, zero, suc, ◌+◌, ◌-◌, ◌*◌, ◌/◌, ◌<◌, ◌≢◌, inl, inr, true, false, Option, none, some, List, [],
  ◌∷◌, arith, if◌then◌else◌, Bool-cases, Option-cases, ltb,
}
use ttstringgolangiot.Base.Int.{ℤ, pos, negsuc, ◌-ℤ◌, ltb_ℤ, same_ℤ}
use ttstringgolangiot.Store.Buffer.{MappedByteBuffer}
use ttstringgolangiot.Store.MapedFile.{MapedFile, select_maped_buffer}
use ttstringgolangiot.Store.CommitLog.{CommitLog}
use ttstringgolangiot.Store.Recovery.{pickup_store_timestamp}
use ttstringgolangiot.Store.ConsumeQueue.{ConsumeQueue, read_unit}

-- `getMapedFileByTime`: the first file that was changed at the time or later, or the last one.
pub get_maped_file_by_time : (MapedFile → Option ℤ) → ℤ → List MapedFile → Option MapedFile
get_maped_file_by_time modified timestamp [] = none
get_maped_file_by_time modified timestamp (f ∷ fs) =
    let rest : Option MapedFile = elim fs [
      | [] ↦ some f
      | g ∷ gs ↦ get_maped_file_by_time modified timestamp fs
    ] in
    elim (modified f) [ none ↦ rest | some t ↦ if ltb_ℤ t timestamp then rest else some f ]

-- The times that were found below and above, with the positions of their units.
pub data Search : Type 0 where
  hits : ℕ → CommitLog → Search
  gives_up : CommitLog → Search
  closes : Option (ℕ × ℤ) → Option (ℕ × ℤ) → CommitLog → Search
  panics : Search
  no_fuel : Search

-- The time of the message whose unit stands at a position of the buffer; -1 where the log does not
-- have it. A negative size, which no put writes, counts as a panic.
pub time_at : MappedByteBuffer → ℕ → CommitLog → Option (ℤ × CommitLog)
time_at buffer at log = elim (read_unit (record buffer { read_pos = at })) [
  | none ↦ none
  | some (((pos offset, pos size), tags_code), b) ↦
      let found = pickup_store_timestamp offset size log in
      elim (found.0) [ none ↦ none | some t ↦ some (t, found.1) ]
  | some (((negsuc offset, pos size), tags_code), b) ↦ some (negsuc 0, log)
  | some (((offset, negsuc size), tags_code), b) ↦ none
]

abbrev pub middle : ℕ → ℕ → ℕ
middle low high = (low + high) / 40 * 20

module _ (time : ℕ → CommitLog → Option (ℤ × CommitLog)) (timestamp : ℤ) where
  unfoldable pub search_loop : ℕ → ℕ → ℤ → Option (ℕ × ℤ) → Option (ℕ × ℤ) → CommitLog → Search
  search_loop zero low high left right log = no_fuel
  search_loop (suc fuel) low (negsuc h) left right log = closes left right log
  search_loop (suc fuel) low (pos h) left right log = elim (ltb h low) [
    | true ↦ closes left right log
    | false ↦ elim (time (middle low h) log) [
      | none ↦ panics
      | some (t, log') ↦ elim (ltb_ℤ t (pos 0)) [
        | true ↦ gives_up log'
        | false ↦ elim (same_ℤ t timestamp) [
          | true ↦ hits (middle low h) log'
          | false ↦ elim (ltb_ℤ timestamp t) [
            | true ↦
                search_loop fuel low (pos (middle low h) -ℤ pos 20) left (some (middle low h, t))
                  log'
            | false ↦
                search_loop fuel (middle low h + 20) (pos h) (some (middle low h, t)) right log'
          ]
        ]
      ]
    ]
  ]

-- The distance of two times.
abbrev distance : ℤ → ℤ → ℤ
distance a b = if ltb_ℤ a b then b -ℤ a else a -ℤ b

-- The offset in the file of the unit that is taken. Where none was read it is -1, and the quotient
-- by the size of a unit is rounded to 0.
abbrev nearest : ℤ → ℕ → Option (ℕ × ℤ) → Option (ℕ × ℤ) → ℕ
nearest timestamp from none none = from - 1
nearest timestamp from none (some (r, t)) = from + r
nearest timestamp from (some (l, t)) none = from + l
nearest timestamp from (some (l, t)) (some (r, t')) =
    if ltb_ℤ (distance timestamp t') (distance timestamp t) then from + r else from + l

abbrev offset_of : ℤ → ℕ → Search → Option (ℕ × CommitLog)
offset_of timestamp from (hits at log) = some ((from + at) / 20, log)
offset_of timestamp from (gives_up log) = some (0, log)
offset_of timestamp from (closes left right log) =
    some (nearest timestamp from left right / 20, log)
offset_of timestamp from panics = none
offset_of timestamp from no_fuel = none

-- As many rounds as the buffer has bytes, and one.
abbrev pub search_fuel : MappedByteBuffer → ℕ
search_fuel buffer = buffer.write_pos + 2

-- `getOffsetInQueueByTime`; the file is held during the search and given back.
unfoldable pub get_offset_in_queue_by_time :
    (MapedFile → Option ℤ) → ℤ → ConsumeQueue → CommitLog → Option (ℕ × CommitLog)
get_offset_in_queue_by_time modified timestamp q log =
    elim (get_maped_file_by_time modified timestamp q.maped_file_queue.maped_files) [
      | none ↦ some (0, log)
      | some f ↦ elim ((select_maped_buffer 0 f).0) [
        | none ↦ some (0, log)
        | some selected ↦
            let buffer : MappedByteBuffer = selected.mapped_byte_buffer in
            offset_of timestamp f.file_from_offset (
              search_loop (time_at buffer) timestamp (search_fuel buffer)
                (q.min_logic_offset - f.file_from_offset) (pos buffer.write_pos -ℤ pos 20) none none
                log)
      ]
    ]

-- How many positions are left between two of them.
abbrev span : ℕ → ℤ → ℕ
span low (pos h) = h + 1 - low
span low (negsuc h) = 0

span_below :
    (low high m : ℕ)
    → low < suc high
    → m < suc high
    → span low (pos m -ℤ pos 20) < span low (pos high)
unfolding ◌-ℤ◌
span_below low high m inside below = ground arith

-- The search of the positions between two of them ends, whatever the times are: each round leaves
-- fewer positions.
pub search_loop-ends :
    (time : ℕ → CommitLog → Option (ℤ × CommitLog)) (timestamp : ℤ) (fuel low : ℕ) (high : ℤ)
    (left right : Option (ℕ × ℤ)) (log : CommitLog)
    → span low high < fuel
    → search_loop time timestamp fuel low high left right log ≢ no_fuel
unfolding search_loop
search_loop-ends time timestamp zero low high left right log h = absurd (omega arith)
search_loop-ends time timestamp (suc fuel) low (negsuc n) left right log h = λ p. cc
search_loop-ends time timestamp (suc fuel) low (pos n) left right log h =
    elim (Bool-cases (ltb n low)) [
      | inl e ↦ rw (search_loop, e) (λ p. cc)
      | inr e ↦ elim (Option-cases (time (middle low n) log)) [
        | inl e₁ ↦ rw (search_loop, e, e₁) (λ p. cc)
        | inr ((t, log'), e₁) ↦ elim (Bool-cases (ltb_ℤ t (pos 0))) [
          | inl e₂ ↦ rw (search_loop, e, e₁, e₂) (λ p. cc)
          | inr e₂ ↦ elim (Bool-cases (same_ℤ t timestamp)) [
            | inl e₃ ↦ rw (search_loop, e, e₁, e₂, e₃) (λ p. cc)
            | inr e₃ ↦
                let inside : low < suc n = ground arith in
                elim (Bool-cases (ltb_ℤ timestamp t)) [
                  | inl e₄ ↦
                      let less = span_below low n (middle low n) inside (omega arith) in
                      let ih =
                        search_loop-ends time timestamp fuel low (pos (middle low n) -ℤ pos 20) left
                          (some (middle low n, t)) log' (omega (arith, less)) in
                      rw (search_loop, e, e₁, e₂, e₃, e₄) ih
                  | inr e₄ ↦
                      let ih =
                        search_loop-ends time timestamp fuel (middle low n + 20) (pos n)
                          (some (middle low n, t)) right log' (omega arith) in
                      rw (search_loop, e, e₁, e₂, e₃, e₄) ih
                ]
          ]
        ]
      ]
    ]
