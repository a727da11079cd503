-- ===== src/Net/Frame.antt =====
-- LengthFieldFragmentationAssemblage (stgnet/remoting/length_field_fragmentation_assemblage.go):
-- cuts the bytes that arrive on a connection into frames by a length field.
-- A `bytes.Buffer` is the list of its unread bytes. The buffer that `pack` works on is the one in
-- the table, so its content is written back at the end unless the entry was deleted.
pub mod Lists
pub mod Step
pub mod Stream
pub mod Total
use ttstringgolangiot.Base.{
  ℕ, zero, suc, ◌+◌, ◌-◌, Bool, true, false, not, ◌&&◌, Option, none, some, List, [], ◌∷◌, ◌++◌,
  String, ltb, leb, ◌==◌, if◌then◌else◌, length, take, drop, Dict, string_eq, lookup, insert, erase,
}
use ttstringgolangiot.Base.Int.{ℤ, pos, negsuc, ◌+ℤ◌, ◌-ℤ◌, ltb_ℤ}
use ttstringgolangiot.Base.Bytes.{be_value, of_word}

pub record Config : Type 0 where
  pub max_frame_length : ℕ
  pub length_field_offset : ℕ
  pub length_field_length : ℕ
  pub initial_bytes_to_strip : ℕ

pub data FrameError : Type 0 where
  buffer_too_long frame_too_long unsupported_length : FrameError

-- `start` and `end` of `pack`.
abbrev pub field_end : Config → ℕ
field_end c = c.length_field_offset + c.length_field_length

abbrev pub slice : ℕ → ℕ → List ℕ → List ℕ
slice from to bs = take (to - from) (drop from bs)

-- `int(uint64)` wraps into the negative numbers; the shorter fields cannot. `none` is the error.
unfoldable pub read_length_field_length : Config → List ℕ → Option ℤ
read_length_field_length c bs =
    if c.length_field_length == 1
    then some (pos (be_value bs))
    else if c.length_field_length == 2
    then some (pos (be_value bs))
    else if c.length_field_length == 4
    then some (pos (be_value bs))
    else if c.length_field_length == 8
    then some (of_word 64 (be_value bs))
    else none

-- `bytes.Buffer.Next`: the bytes read and the rest; a negative count panics (`none`).
pub next : ℤ → List ℕ → Option (List ℕ × List ℕ)
next (pos n) buf = some (take n buf, drop n buf)
next (negsuc n) buf = none

abbrev pub is_length : ℤ → List ℕ → Bool
is_length (pos n) buf = length buf == n
is_length (negsuc n) buf = false

-- The buffer and the packet length after the bytes to strip are skipped.
pub strip : Config → ℤ → List ℕ → ℤ × List ℕ
strip c packet_length buf =
    if ltb 0 c.initial_bytes_to_strip
    then (packet_length -ℤ pos c.initial_bytes_to_strip, drop c.initial_bytes_to_strip buf)
    else (packet_length, buf)

-- Whether the table's entry is deleted, the frame, and what stays in the buffer; `none` is a panic.
pub adjust_buffer : Config → ℤ → List ℕ → Option (Bool × List ℕ × List ℕ)
adjust_buffer c packet_length buf =
    let (n, rest) = strip c packet_length buf in
    elim (next n rest) [
      | none ↦ none
      | some (frame, left) ↦ some (is_length packet_length buf, frame, left)
    ]

-- What one round of the loop of `pack` does.
pub data Round : Type 0 where
  wait : Round
  unsupported : Round
  oversize : Round
  crash : Round
  emit : Bool → List ℕ → List ℕ → Round

pub round : Config → List ℕ → Round
round c buf =
    if leb (length buf) (field_end c)
    then wait
    else elim (read_length_field_length c (slice c.length_field_offset (field_end c) buf)) [
      | none ↦ unsupported
      | some packet_length ↦
          if ltb_ℤ (pos c.max_frame_length) packet_length
          then oversize
          else if ltb_ℤ (pos (length buf - field_end c)) packet_length
          then wait
          else elim (adjust_buffer c (packet_length +ℤ pos (field_end c)) buf) [
            | none ↦ crash
            | some (emptied, frame, left) ↦ emit emptied frame left
          ]
    ]

-- How `pack` ends: is the entry still in the table, the buffer, the frames, the error.
pub data Outcome : Type 0 where
  packed : Bool → List ℕ → List (List ℕ) → Option FrameError → Outcome
  panicked : Outcome

-- The loop of `pack`; `none` means that the fuel ran out.
pub pack_loop : Config → ℕ → Bool → List ℕ → List (List ℕ) → Option Outcome
pack_loop c zero linked buf bufs = none
pack_loop c (suc fuel) linked buf bufs = elim (round c buf) [
  | wait ↦ some (packed linked buf bufs none)
  | unsupported ↦ some (packed linked buf bufs (some unsupported_length))
  | oversize ↦ some (packed false buf bufs (some frame_too_long))
  | crash ↦ some panicked
  | emit emptied frame left ↦ pack_loop c fuel (linked && not emptied) left (bufs ++ frame ∷ [])
]

abbrev pub Table : Type 0
Table = Dict String (List ℕ)

-- The table after a call, the frames and the error.
pub data Packed : Type 0 where
  returned : Table → List (List ℕ) → Option FrameError → Packed
  aborted : Packed

abbrev pub buffered : Table → String → List ℕ
buffered t addr = elim (lookup addr t) [ none ↦ [] | some buf ↦ buf ]

abbrev pub write_back : Table → String → Outcome → Packed
write_back t addr (packed true buf bufs e) = returned (insert addr buf t) bufs e
write_back t addr (packed false buf bufs e) = returned (erase addr t) bufs e
write_back t addr panicked = aborted

-- `Pack`, with one round of fuel more than the buffer has bytes.
pub pack : Config → Table → String → List ℕ → Option Packed
pack c t addr buffer =
    if ltb c.max_frame_length (length buffer)
    then some (returned t [] (some buffer_too_long))
    else let buf = buffered t addr ++ buffer in
      elim (pack_loop c (suc (length buf)) true buf []) [
        | none ↦ none
        | some o ↦ some (write_back t addr o)
      ]
