-- ===== src/Client/Allocate/Partition.antt =====
-- The shares of all consumers of a group, in the order of the ids, are the message queues.
use ttstringgolangiot.Base.{
  ℕ, zero, suc, ◌+◌, ◌*◌, ◌/◌, ◌<◌, ◌≡◌, refl, sym, ap, ◌∙◌, false, Option, none, some, List, [],
  ◌∷◌, ◌++◌, String, arith, length, take, drop, length-append, append_assoc, take-append-drop,
  subst,
}
use native.Mathlib.Nat.{zero-add}
use ttstringgolangiot.Base.Text.{equal_fold, equal_fold_refl}
use ttstringgolangiot.Client.Allocate.{index_of, share, allocate}
use ttstringgolangiot.Client.Allocate.Share.{bound, size, split, share-eq-segment}

-- The ids are not empty and no two are equal up to case.
abbrev pub DifferFrom : String → List String → Type 0
DifferFrom x [] = Unit
DifferFrom x (y ∷ ys) = (equal_fold x y ≡ false) × DifferFrom x ys

abbrev pub AreDistinct : List String → Type 0
AreDistinct [] = Unit
AreDistinct (x ∷ xs) = (equal_fold x "" ≡ false) × DifferFrom x xs × AreDistinct xs

DifferFrom-middle :
    (x y : String) (pre rest : List String)
    → DifferFrom x (pre ++ y ∷ rest)
    → equal_fold x y ≡ false
DifferFrom-middle x y [] rest d = d.0
DifferFrom-middle x y (p ∷ pre) rest d = DifferFrom-middle x y pre rest d.1

index_of_middle :
    (pre rest : List String) (cid : String) (i : ℕ)
    → AreDistinct (pre ++ cid ∷ rest)
    → (index_of cid (pre ++ cid ∷ rest) i ≡ some (i + length pre)) × (equal_fold cid "" ≡ false)
unfolding index_of
index_of_middle [] rest cid i d = ground (arith, equal_fold_refl cid)
index_of_middle (p ∷ pre) rest cid i d =
    ground (arith, DifferFrom-middle p cid pre rest d.1, index_of_middle pre rest cid (i + 1) d.2)

-- The first bounds follow one another, and the last one is the number of queues.
bound-suc : (n c i : ℕ) → bound n c i + size n c i ≡ bound n c (i + 1)
bound-suc n c i = let e : (i + 1) * (n / c) ≡ i * (n / c) + n / c = grind arith in ground (arith, e)

bound_last : (n c : ℕ) → 0 < c → bound n c c ≡ n
bound_last n c h = omega (arith, split n c 0 h)

module _ {A : Type 0} where
  -- The shares of the consumers `who`, one after the other.
  pub allocate_all : List A → List String → List String → Option (List A)
  allocate_all mqs cids [] = some []
  allocate_all mqs cids (cid ∷ who) =
      let rest = allocate_all mqs cids who in
      elim (allocate cid mqs cids) [
        | none ↦ none
        | some mine ↦ elim rest [ none ↦ none | some later ↦ some (mine ++ later) ]
      ]

  take-drop :
      (mqs : List A) (a s b : ℕ) → b ≡ a + s → take s (drop a mqs) ++ drop b mqs ≡ drop a mqs
  take-drop mqs zero s b e =
      ap (λ k. take s mqs ++ drop k mqs) (omega (arith, e)) ∙ take-append-drop s mqs
  take-drop [] (suc a) s zero e = absurd (omega arith)
  take-drop [] (suc a) zero (suc b) e = refl
  take-drop [] (suc a) (suc s) (suc b) e = refl
  take-drop (m ∷ mqs) (suc a) s zero e = absurd (omega arith)
  take-drop (m ∷ mqs) (suc a) s (suc b) e = take-drop mqs a s b (omega arith)

  drop_end : (mqs : List A) (n : ℕ) → n ≡ length mqs → drop n mqs ≡ []
  drop_end [] zero e = refl
  drop_end [] (suc n) e = refl
  drop_end (m ∷ mqs) zero e = absurd (omega arith)
  drop_end (m ∷ mqs) (suc n) e = drop_end mqs n (omega arith)

  module _ (mqs : List A) (cids : List String) (h : 0 < length mqs) (d : AreDistinct cids) where
    allocate_middle :
        (pre rest : List String) (cid : String)
        → cids ≡ pre ++ cid ∷ rest
        → (allocate cid mqs cids ≡ share mqs (length cids) (length pre))
          × (length pre < length cids)
    unfolding allocate
    allocate_middle pre rest cid e =
        let found = index_of_middle pre rest cid 0 (subst AreDistinct e d) in
        let found' : index_of cid cids 0 ≡ some (length pre) =
          ap (λ l. index_of cid l 0) e ∙ found.0 ∙ ap some (zero-add (length pre)) in
        ground (arith, found', found.1, ap length e, length-append pre (cid ∷ rest))

    allocate_from :
        (pre who : List String)
        → cids ≡ pre ++ who
        → 0 < length cids
        → allocate_all mqs cids who
          ≡ some (drop (bound (length mqs) (length cids) (length pre)) mqs)
    unfolding allocate_all
    allocate_from pre [] e k =
        let all : length pre ≡ length cids = omega (arith, ap length e, length-append pre []) in
        let end =
          ap (bound (length mqs) (length cids)) all ∙ bound_last (length mqs) (length cids) k in
        ap some (sym (drop_end mqs _ end))
    allocate_from pre (cid ∷ who) e k =
        let n = length mqs in
        let c = length cids in
        let (mine, i) = allocate_middle pre who cid e in
        let next : length (pre ++ cid ∷ []) ≡ length pre + 1 = length-append pre (cid ∷ []) in
        ground (
          arith,
          mine,
          share-eq-segment mqs c (length pre) i,
          allocate_from (pre ++ cid ∷ []) who (e ∙ sym (append_assoc pre (cid ∷ []) who)) k,
          ap (bound n c) next,
          take-drop mqs (bound n c (length pre)) (size n c (length pre))
              (bound n c (length pre + 1)) (sym (bound-suc n c (length pre))),
        )

  -- For a non-empty list of queues and a group of distinct, non-empty consumer ids, every consumer
  -- gets an answer, and the shares in the order of the ids make up the queues: no queue is left out
  -- and none is given to two consumers.
  pub allocate_partition :
      (mqs : List A) (cids : List String)
      → 0 < length mqs
      → 0 < length cids
      → AreDistinct cids
      → allocate_all mqs cids cids ≡ some mqs
  allocate_partition mqs cids h k d =
      let first : bound (length mqs) (length cids) 0 ≡ 0 = omega arith in
      allocate_from mqs cids h d [] cids refl k ∙ ap (λ n. some (drop n mqs)) first
