-- ===== src/Broker/Offsets/Filter.antt =====
-- The groups that `QueryMinOffsetInAllGroup` filters out.
use ttstringgolangiot.Base.{
  ℕ, ◌≡◌, refl, ap, ◌∙◌, Bool, true, false, none, List, [], ◌∷◌, String, if◌then◌else◌, Dict,
  string_eq, ◌≟◌, ≟_eq, lookup, arith, Bool-cases, inl, inr,
}
use ttstringgolangiot.Base.Int.{ℤ}
use ttstringgolangiot.Broker.Offsets.{
  OffsetManager, split, remove_by_flag, is_of_group, remove_groups, is_blank,
  query_min_offset_in_all_group,
}

pub is_one_of : String → List String → Bool
is_one_of group [] = false
is_one_of group (g ∷ gs) = if g ≟ group then true else is_one_of group gs

-- A flag that looks at the key only takes away exactly the flagged keys.
lookup-remove_by_flag :
    (flag : String → Bool) (k : String) (t : Dict String ℕ)
    → lookup k (remove_by_flag (λ key r. flag key) t) ≡ (if flag k then none else lookup k t)
unfolding remove_by_flag
lookup-remove_by_flag flag k [] = ground arith
lookup-remove_by_flag flag k ((j, r) ∷ t) = elim (Bool-cases (j ≟ k)) [
  | inl same ↦
      let e : j ≡ k = ≟_eq j k same in
      elim (Bool-cases (flag k)) [
        | inl flagged ↦ rw (same, ap flag e, flagged, lookup-remove_by_flag flag k t, flagged) refl
        | inr kept ↦ rw (same, ap flag e, kept, same) refl
      ]
  | inr other ↦ elim (Bool-cases (flag j)) [
    | inl flagged ↦ rw (other, flagged, lookup-remove_by_flag flag k t) refl
    | inr kept ↦ rw (other, kept, other, lookup-remove_by_flag flag k t) refl
  ]
]

unfoldable pub in_groups : List String → String → Bool
in_groups [] key = false
in_groups (g ∷ gs) key = if is_of_group g key then true else in_groups gs key

lookup-remove_groups :
    (gs : List String) (k : String) (t : Dict String ℕ)
    → lookup k (remove_groups gs t) ≡ (if in_groups gs k then none else lookup k t)
unfolding remove_groups in_groups
lookup-remove_groups [] k t = refl
lookup-remove_groups (g ∷ gs) k t =
    lookup-remove_groups gs k (remove_by_flag (λ key r. is_of_group g key) t)
    ∙ elim (Bool-cases (in_groups gs k)) [
      | inl gone ↦
          rw gone (elim (Bool-cases (is_of_group g k)) [ inl a ↦ rw a refl | inr b ↦ rw b refl ])
      | inr stays ↦ rw stays (
          lookup-remove_by_flag (is_of_group g) k t
          ∙ elim (Bool-cases (is_of_group g k)) [ inl a ↦ rw a refl | inr b ↦ rw b refl ])
    ]

module _ (min_offset_in_queue : String → ℕ → ℤ) where
  -- A query of the least offsets with groups to leave out deletes the offsets of these groups, of
  -- every topic, from the broker's table, and leaves the table's other keys and the maps.
  pub query_min_offset_in_all_group-deletes :
      (topic filter_groups key : String) (m : OffsetManager)
      → is_blank filter_groups ≡ false
      → let m' : OffsetManager =
          (query_min_offset_in_all_group min_offset_in_queue topic filter_groups m).1 in
        (lookup key m'.offsets
          ≡ (if in_groups (split 44 filter_groups) key then none else lookup key m.offsets))
        × (m'.maps ≡ m.maps)
  unfolding query_min_offset_in_all_group
  query_min_offset_in_all_group-deletes topic filter_groups key m given =
      (rw given (lookup-remove_groups (split 44 filter_groups) key m.offsets), refl)
