-- ===== src/Broker/Offsets/Share.antt =====
-- What a commit changes, and what a clone makes of it.
use ttstringgolangiot.Base.{
  ℕ, zero, suc, ◌+◌, ◌<◌, ◌≡◌, refl, sym, ap, ◌∙◌, Bool, true, false, ◌&&◌, ◌||◌, Option, none,
  some, List, [], ◌∷◌, ◌++◌, String, ◌==◌, if◌then◌else◌, Dict, nat_eq, string_eq, ◌≟◌, ≟_eq,
  lookup, insert, lookup-insert, lookup-insert_self, length, get_or, set, arith, Option-cases,
  Bool-cases, ==_iff, inl, inr,
}
use ttstringgolangiot.Base.Int.{ℤ, negsuc}
use ttstringgolangiot.Broker.Offsets.{
  Queues, OffsetManager, key_of, query_key, query_offset, commit_key, commit_offset, clone_key,
  clone_offset,
}

-- Every address of the table is one of the store.
unfoldable pub AreIn : ℕ → Dict String ℕ → Type 0
AreIn n [] = Unit
AreIn n ((k, r) ∷ t) = (r < n) × AreIn n t

unfoldable pub IsValid : OffsetManager → Type 0
IsValid m = AreIn (length m.maps) m.offsets

-- Do two keys have one map: they are equal, or the table has the same address for both.
abbrev same_ref : Option ℕ → Option ℕ → Bool
same_ref (some r) (some q) = r == q
same_ref _ _ = false

unfoldable pub shares : String → String → OffsetManager → Bool
shares k j m = (k ≟ j) || same_ref (lookup k m.offsets) (lookup j m.offsets)

AreIn-lookup :
    (n : ℕ) (t : Dict String ℕ) (k : String) (r : ℕ) → AreIn n t → lookup k t ≡ some r → r < n
unfolding AreIn
AreIn-lookup n [] k r h e = absurd cc
AreIn-lookup n ((j, q) ∷ t) k r h e = ground (arith, AreIn-lookup n t k r h.1)

AreIn-suc : (n : ℕ) (t : Dict String ℕ) → AreIn n t → AreIn (n + 1) t
unfolding AreIn
AreIn-suc n [] h = tt
AreIn-suc n ((j, q) ∷ t) h = (omega (arith, h.0), AreIn-suc n t h.1)

AreIn-insert :
    (n : ℕ) (t : Dict String ℕ) (k : String) (r : ℕ) → r < n → AreIn n t → AreIn n (insert k r t)
unfolding AreIn
AreIn-insert n [] k r lt h = (lt, tt)
AreIn-insert n ((j, q) ∷ t) k r lt h = elim (Bool-cases (j ≟ k)) [
  | inl same ↦ rw same (lt, h.1)
  | inr other ↦ rw other (h.0, AreIn-insert n t k r lt h.1)
]

get_or-set :
    (xs : List Queues) (i j : ℕ) (v : Queues)
    → i < length xs
    → get_or (set xs i v) j [] ≡ (if i == j then v else get_or xs j [])
get_or-set [] i j v h = absurd (omega arith)
get_or-set (x ∷ xs) zero zero v h = refl
get_or-set (x ∷ xs) zero (suc j) v h = ground arith
get_or-set (x ∷ xs) (suc i) zero v h = ground arith
get_or-set (x ∷ xs) (suc i) (suc j) v h = get_or-set xs i j v (omega arith) ∙ ground arith

get_or-append :
    (xs : List Queues) (j : ℕ) (v : Queues)
    → j < length xs
    → get_or (xs ++ v ∷ []) j [] ≡ get_or xs j []
get_or-append [] j v h = absurd (omega arith)
get_or-append (x ∷ xs) zero v h = refl
get_or-append (x ∷ xs) (suc j) v h = get_or-append xs j v (omega arith)

get_or-append_last : (xs : List Queues) (v : Queues) → get_or (xs ++ v ∷ []) (length xs) [] ≡ v
get_or-append_last [] v = refl
get_or-append_last (x ∷ xs) v = get_or-append_last xs v

-- The query as a function of the address.
query_map : ℕ → Queues → ℤ
query_map queue queues = elim (lookup queue queues) [ none ↦ negsuc 0 | some offset ↦ offset ]

query_map-insert :
    (queue q : ℕ) (offset : ℤ) (queues : Queues)
    → query_map q (insert queue offset queues) ≡ (if queue == q then offset else query_map q queues)
unfolding query_map
query_map-insert queue q offset queues = elim (Bool-cases (queue == q)) [
  | inl same ↦ rw (query_map, lookup-insert queue q offset queues, same) refl
  | inr other ↦ rw (query_map, lookup-insert queue q offset queues, other) refl
]

query_ref : ℕ → OffsetManager → Option ℕ → ℤ
query_ref queue m none = negsuc 0
query_ref queue m (some r) = query_map queue (get_or m.maps r [])

query_key-ref :
    (key : String) (queue : ℕ) (m : OffsetManager)
    → query_key key queue m ≡ query_ref queue m (lookup key m.offsets)
unfolding query_ref query_map
query_key-ref key queue m = elim (Option-cases (lookup key m.offsets)) [
  | inl absent ↦ rw (query_key, absent) refl
  | inr (r, there) ↦ rw (query_key, there) refl
]

commit_key-none :
    (k : String) (queue : ℕ) (offset : ℤ) (m : OffsetManager)
    → lookup k m.offsets ≡ none
    → commit_key k queue offset m ≡ record {
      offsets = insert k (length m.maps) m.offsets;
      maps = m.maps ++ ((queue, offset) ∷ []) ∷ [];
    }
unfolding commit_key
commit_key-none k queue offset m absent = rw (commit_key, absent) refl

commit_key-some :
    (k : String) (queue : ℕ) (offset : ℤ) (m : OffsetManager) (r : ℕ)
    → lookup k m.offsets ≡ some r
    → commit_key k queue offset m
      ≡ record m { maps = set m.maps r (insert queue offset (get_or m.maps r [])) }
unfolding commit_key
commit_key-some k queue offset m r at = rw (commit_key, at) refl

query_ref-new :
    (k j : String) (queue q : ℕ) (offset : ℤ) (m : OffsetManager)
    → IsValid m
    → lookup k m.offsets ≡ none
    → query_ref q (commit_key k queue offset m) (lookup j (commit_key k queue offset m).offsets)
      ≡ (if shares k j m && queue == q then offset else query_ref q m (lookup j m.offsets))
unfolding query_ref shares IsValid query_map
query_ref-new k j queue q offset m valid absent = elim (Bool-cases (k ≟ j)) [
  | inl same ↦
      let e : lookup j m.offsets ≡ none =
        ap (λ i. lookup i m.offsets) (sym (≟_eq k j same)) ∙ absent in
      rw
        (
          commit_key-none k queue offset m absent,
          absent,
          lookup-insert k j (length m.maps) m.offsets,
          same,
          get_or-append_last m.maps ((queue, offset) ∷ []),
          query_map-insert queue q offset [],
          e,
        )
        refl
  | inr other ↦ elim (Option-cases (lookup j m.offsets)) [
    | inl missing ↦
        rw
          (
            commit_key-none k queue offset m absent,
            absent,
            lookup-insert k j (length m.maps) m.offsets,
            other,
            missing,
          )
          refl
    | inr (r, there) ↦
        rw
          (
            commit_key-none k queue offset m absent,
            absent,
            lookup-insert k j (length m.maps) m.offsets,
            other,
            there,
            get_or-append m.maps r ((queue, offset) ∷ [])
                (AreIn-lookup (length m.maps) m.offsets j r valid there),
          )
          refl
  ]
]

query_ref-old :
    (k j : String) (queue q : ℕ) (offset : ℤ) (m : OffsetManager) (r : ℕ)
    → IsValid m
    → lookup k m.offsets ≡ some r
    → query_ref q (commit_key k queue offset m) (lookup j (commit_key k queue offset m).offsets)
      ≡ (if shares k j m && queue == q then offset else query_ref q m (lookup j m.offsets))
unfolding query_ref shares IsValid
query_ref-old k j queue q offset m r valid at = elim (Option-cases (lookup j m.offsets)) [
  | inl missing ↦
      let other : (k ≟ j) ≡ false = ground (arith, string_eq.beq_iff k j) in
      rw (commit_key-some k queue offset m r at, at, missing, other) refl
  | inr (p, there) ↦
      let written =
        get_or-set m.maps r p (insert queue offset (get_or m.maps r []))
          (AreIn-lookup (length m.maps) m.offsets k r valid at) in
      let same_map : (k ≟ j) ≡ true → (r == p) ≡ true = ground (arith, string_eq.beq_iff k j) in
      elim (Bool-cases (r == p)) [
        | inl shared ↦
            let e : r ≡ p = (==_iff r p).0 shared in
            let both : ((k ≟ j) || true) ≡ true = ground arith in
            rw
              (
                commit_key-some k queue offset m r at,
                at,
                there,
                written,
                shared,
                query_map-insert queue q offset (get_or m.maps r []),
                both,
              )
              (ground (arith, e))
        | inr apart ↦
            let other : (k ≟ j) ≡ false = ground (arith, same_map) in
            rw (commit_key-some k queue offset m r at, at, there, written, apart, other) refl
      ]
]

-- In a table whose addresses are all in the store, a query after a commit finds the committed
-- offset when the queue is the same and the keys have one map, and what it found before otherwise.
pub query_offset-commit_offset :
    (group topic group' topic' : String) (queue queue' : ℕ) (offset : ℤ) (m : OffsetManager)
    → IsValid m
    → query_offset group' topic' queue' (commit_offset group topic queue offset m) ≡ (
        if shares (key_of topic group) (key_of topic' group') m && queue == queue'
        then offset
        else query_offset group' topic' queue' m)
unfolding query_offset commit_offset
query_offset-commit_offset group topic group' topic' queue queue' offset m valid =
    let k = key_of topic group in
    let j = key_of topic' group' in
    query_key-ref j queue' (commit_key k queue offset m)
    ∙ elim (Option-cases (lookup k m.offsets)) [
      | inl absent ↦ query_ref-new k j queue queue' offset m valid absent
      | inr (r, at) ↦ query_ref-old k j queue queue' offset m r valid at
    ]
    ∙ ap (λ o. if shares k j m && queue == queue' then offset else o)
        (sym (query_key-ref j queue' m))

pub clone_offset-IsValid :
    (src_group dest_group topic : String) (m : OffsetManager)
    → IsValid m
    → IsValid (clone_offset src_group dest_group topic m)
unfolding IsValid clone_offset clone_key
clone_offset-IsValid src_group dest_group topic m valid =
    elim (Option-cases (lookup (key_of topic src_group) m.offsets)) [
      | inl absent ↦ rw (clone_key, absent) valid
      | inr (r, at) ↦
          rw (clone_key, at)
            (AreIn-insert (length m.maps) m.offsets (key_of topic dest_group) r
              (AreIn-lookup (length m.maps) m.offsets (key_of topic src_group) r valid at) valid)
    ]

clone_key-shares :
    (src dest : String) (m : OffsetManager) (r : ℕ)
    → lookup src m.offsets ≡ some r
    → shares src dest (clone_key src dest m) ≡ true
unfolding shares clone_key
clone_key-shares src dest m r at = elim (Bool-cases (src ≟ dest)) [
  | inl same ↦ rw same refl
  | inr other ↦
      let other' : (dest ≟ src) ≡ false =
        ground (arith, string_eq.beq_iff src dest, string_eq.beq_iff dest src) in
      rw
        (
          clone_key,
          at,
          lookup-insert_self dest r m.offsets,
          lookup-insert dest src r m.offsets,
          other',
          at,
        )
        (ground arith)
]

-- In a table whose addresses are all in the store, after the offsets of a group are cloned to
-- another one, a commit of the first group moves the offset of the second.
pub clone_offset-aliases :
    (src_group dest_group topic : String) (queue : ℕ) (offset : ℤ) (m : OffsetManager) (r : ℕ)
    → IsValid m
    → lookup (key_of topic src_group) m.offsets ≡ some r
    → query_offset dest_group topic queue
        (commit_offset src_group topic queue offset (clone_offset src_group dest_group topic m))
      ≡ offset
unfolding clone_offset
clone_offset-aliases src_group dest_group topic queue offset m r valid at =
    let m' = clone_offset src_group dest_group topic m in
    let shared = clone_key-shares (key_of topic src_group) (key_of topic dest_group) m r at in
    query_offset-commit_offset src_group topic dest_group topic queue queue offset m'
      (clone_offset-IsValid src_group dest_group topic m valid)
    ∙ rw shared (ground arith)
