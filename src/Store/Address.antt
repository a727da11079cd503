-- ===== src/Store/Address.antt =====
-- The addresses in a message and its identifier (SplitHostPort and CreateMessageId of
-- stgcommon/message/message_decoder.go, hostStringToBytes of
-- stgstorelog/default_append_message_callback.go). A string is its bytes; `none` is a panic.
use ttstringgolangiot.Base.{
  ℕ, ◌+◌, ◌-◌, ◌/◌, ◌%◌, Option, none, some, List, [], ◌∷◌, ◌++◌, ltb, if◌then◌else◌, drop,
  replicate,
}
use ttstringgolangiot.Base.Int.{ℤ, pos}
use ttstringgolangiot.Store.Buffer.{int_to_bytes}
use ttstringgolangiot.Store.Properties.{bytes_eq}

-- What the code takes from Go's library: `net.SplitHostPort`, `strconv.ParseInt` to 32 bits,
-- `net.ParseIP` (nil, or 16 bytes) and `strconv.Itoa`.
pub record GoLibrary : Type 0 where
  pub net_split : List ℕ → Option (List ℕ × List ℕ)
  pub parse_port : List ℕ → Option ℤ
  pub parse_ip : List ℕ → List ℕ
  pub itoa : ℤ → List ℕ

-- `SplitHostPort`; an error gives what is known up to it, and the empty address is no error.
unfoldable pub split_host_port : GoLibrary → List ℕ → Option (List ℕ × ℤ)
split_host_port go [] = some ([], pos 0)
split_host_port go (x ∷ addr) = elim (go.net_split (x ∷ addr)) [
  | none ↦ none
  | some (host, port) ↦ elim (go.parse_port port) [ none ↦ none | some n ↦ some (host, n) ]
]

abbrev pub address_bytes : List ℕ → List ℕ
address_bytes [] = replicate 4 0
address_bytes (x ∷ ip) = drop 12 (x ∷ ip)

unfoldable pub host_string_to_bytes : GoLibrary → List ℕ → List ℕ
host_string_to_bytes go addr = elim (split_host_port go addr) [
  | none ↦ replicate 8 0
  | some (host, port) ↦ address_bytes (go.parse_ip host) ++ int_to_bytes 4 port
]

-- `ipv4StringToBytes`, which takes a slice of the bytes of the address, also where it has none.
unfoldable pub ipv4_string_to_bytes : GoLibrary → List ℕ → Option (List ℕ)
ipv4_string_to_bytes go [] = some (replicate 4 0)
ipv4_string_to_bytes go (x ∷ host) = elim (go.parse_ip (x ∷ host)) [
  | [] ↦ none
  | y ∷ ip ↦ some (drop 12 (y ∷ ip))
]

abbrev pub hex_digit : ℕ → ℕ
hex_digit n = if ltb n 10 then b'0' + n else b'A' + (n - 10)

abbrev pub bytes_to_hex_string : List ℕ → List ℕ
bytes_to_hex_string [] = []
bytes_to_hex_string (x ∷ xs) = hex_digit (x / 16) ∷ hex_digit (x % 16) ∷ bytes_to_hex_string xs

-- `CreateMessageId`; after an error the identifier is the empty string.
unfoldable pub create_message_id : GoLibrary → List ℕ → ℕ → Option (List ℕ)
create_message_id go addr offset = elim (split_host_port go addr) [
  | none ↦ some []
  | some (host, port) ↦ elim (ipv4_string_to_bytes go host) [
    | none ↦ none
    | some ip ↦
        some (bytes_to_hex_string (ip ++ (int_to_bytes 4 port ++ int_to_bytes 8 (pos offset))))
  ]
]
