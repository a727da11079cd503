-- ===== src/Store/Properties.antt =====
-- The properties of a message as bytes (stgcommon/message/message_decoder.go), and the code of
-- its tags (stgstorelog/message_ext_broker_inner.go, ParseTopicFilterType of
-- stgcommon/message/message_ext.go). A string is its list of bytes.
pub mod Roundtrip
use Prim.Native.Nat.{bit_and}
use ttstringgolangiot.Base.{
  ℕ, zero, suc, ◌+◌, ◌*◌, ◌%◌, ◌^◌, ◌≡◌, refl, Bool, true, false, ◌&&◌, Option, none, some, List,
  [], ◌∷◌, ◌++◌, arith, ◌==◌, if◌then◌else◌, length, Eq, Dict, insert,
}
use ttstringgolangiot.Base.Int.{ℤ}
use ttstringgolangiot.Base.Bytes.{to_word, of_word}

abbrev pub same_bytes : List ℕ → List ℕ → Bool
same_bytes [] [] = true
same_bytes [] (y ∷ ys) = false
same_bytes (x ∷ xs) [] = false
same_bytes (x ∷ xs) (y ∷ ys) = x == y && same_bytes xs ys

pub same_bytes_eq : (xs ys : List ℕ) → same_bytes xs ys ≡ true → xs ≡ ys
same_bytes_eq [] [] e = refl
same_bytes_eq [] (y ∷ ys) e = absurd (cc)
same_bytes_eq (x ∷ xs) [] e = absurd (cc)
same_bytes_eq (x ∷ xs) (y ∷ ys) e = ground (arith, same_bytes_eq xs ys)

same_bytes_refl : (xs : List ℕ) → same_bytes xs xs ≡ true
same_bytes_refl [] = refl
same_bytes_refl (x ∷ xs) = ground (arith, same_bytes_refl xs)

pub same_bytes_of_eq : (xs ys : List ℕ) → xs ≡ ys → same_bytes xs ys ≡ true
same_bytes_of_eq xs ys e = rw e (same_bytes_refl ys)

instance abbrev pub bytes_eq : Eq (List ℕ)
bytes_eq = record {
  beq = same_bytes;
  beq_iff = λ xs ys. (same_bytes_eq xs ys, same_bytes_of_eq xs ys);
}

abbrev pub name_value_separator : ℕ
name_value_separator = 1

abbrev pub property_separator : ℕ
property_separator = 2

-- `MessageProperties2Bytes`: Go gives the entries of the map in some order.
abbrev pub message_properties_to_bytes : Dict (List ℕ) (List ℕ) → List ℕ
message_properties_to_bytes [] = []
message_properties_to_bytes ((k, v) ∷ properties) =
    k ++ (name_value_separator ∷ v ++ (property_separator ∷ message_properties_to_bytes properties))

-- `bytes.IndexByte` with the slices that the code takes at it: what stands before the first
-- separator, and what stands after it.
abbrev pub consed : ℕ → Option (List ℕ × List ℕ) → Option (List ℕ × List ℕ)
consed x none = none
consed x (some (before, after)) = some (x ∷ before, after)

unfoldable pub cut_at_byte : ℕ → List ℕ → Option (List ℕ × List ℕ)
cut_at_byte s [] = none
cut_at_byte s (x ∷ xs) =
    let rest = consed x (cut_at_byte s xs) in if x == s then some ([], xs) else rest

-- One turn of the loop: the key, the value and what is left, or `none` where it breaks.
unfoldable pub next_property : List ℕ → Option ((List ℕ × List ℕ) × List ℕ)
next_property bytes = elim (cut_at_byte property_separator bytes) [
  | none ↦ none
  | some (property, rest) ↦ elim (cut_at_byte name_value_separator property) [
    | none ↦ none
    | some entry ↦ some (entry, rest)
  ]
]

-- The loop of `Bytes2messageProperties`; each turn takes two bytes or more, so the length of the
-- bytes is enough fuel.
unfoldable pub collect_properties : ℕ → List ℕ → Dict (List ℕ) (List ℕ) → Dict (List ℕ) (List ℕ)
collect_properties zero bytes properties = properties
collect_properties (suc fuel) bytes properties = elim (next_property bytes) [
  | none ↦ properties
  | some ((k, v), rest) ↦ collect_properties fuel rest (insert k v properties)
]

unfoldable pub bytes_to_message_properties : List ℕ → Dict (List ℕ) (List ℕ)
bytes_to_message_properties bytes = collect_properties (length bytes) bytes []

abbrev pub multi_tags_flag : ℕ
multi_tags_flag = 2

pub data TopicFilterType : Type 0 where
  single_tag : TopicFilterType
  multi_tag : TopicFilterType

-- `ParseTopicFilterType`: the flag is read off the word of the int32.
unfoldable pub parse_topic_filter_type : ℤ → TopicFilterType
parse_topic_filter_type sys_flag =
    if bit_and (to_word 32 sys_flag) multi_tags_flag == multi_tags_flag
    then multi_tag
    else single_tag

-- The loop of `HashCode`, on the word of its int64.
unfoldable pub hash_from : ℕ → List ℕ → ℕ
hash_from h [] = h
hash_from h (x ∷ xs) = hash_from ((31 * h + x) % 2 ^ 64) xs

unfoldable pub hash_code : List ℕ → ℤ
hash_code s = of_word 64 (hash_from 0 s)

-- The type of the filter is not looked at.
unfoldable pub tags_string_to_tags_code : TopicFilterType → List ℕ → ℤ
tags_string_to_tags_code filter_type [] = ℤ.pos 0
tags_string_to_tags_code filter_type (x ∷ xs) = hash_code (x ∷ xs)
