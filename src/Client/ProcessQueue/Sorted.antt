-- ===== src/Client/ProcessQueue/Sorted.antt =====
-- The sorted key list against the map.
use ttstringgolangiot.Base.{
  ℕ, suc, ◌≤◌, ◌≡◌, refl, Bool, true, false, not, ◌&&◌, ◌||◌, Option, none, some, List, [], ◌∷◌,
  ◌++◌, arith, ◌==◌, if◌then◌else◌, length, Dict, nat_eq, lookup, insert, erase, lookup-insert,
  lookup-erase,
}
use ttstringgolangiot.Client.ProcessQueue.{MessageExt, insert_sorted, sort, without, last_of}

abbrev pub contains : ℕ → List ℕ → Bool
contains k [] = false
contains k (j ∷ ks) = (j == k) || contains k ks

abbrev pub AllFrom : ℕ → List ℕ → Type 0
AllFrom k [] = Unit
AllFrom k (j ∷ ks) = (k ≤ j) × AllFrom k ks

abbrev pub IsSorted : List ℕ → Type 0
IsSorted [] = Unit
IsSorted (k ∷ ks) = AllFrom k ks × IsSorted ks

AllFrom-mono : (j k : ℕ) (ks : List ℕ) → j ≤ k → AllFrom k ks → AllFrom j ks
AllFrom-mono j k [] h a = tt
AllFrom-mono j k (x ∷ ks) h a = (omega arith, AllFrom-mono j k ks h a.1)

AllFrom-insert_sorted :
    (j x : ℕ) (ks : List ℕ) → j ≤ x → AllFrom j ks → AllFrom j (insert_sorted x ks)
AllFrom-insert_sorted j x [] h a = (h, tt)
AllFrom-insert_sorted j x (k ∷ ks) h a = ground (arith, AllFrom-insert_sorted j x ks h a.1)

insert_sorted-IsSorted : (x : ℕ) (ks : List ℕ) → IsSorted ks → IsSorted (insert_sorted x ks)
insert_sorted-IsSorted x [] s = (tt, tt)
insert_sorted-IsSorted x (k ∷ ks) s =
    ground
      (arith, insert_sorted-IsSorted x ks s.1, AllFrom-mono x k ks, AllFrom-insert_sorted k x ks)

pub sort-IsSorted : (ks : List ℕ) → IsSorted (sort ks)
sort-IsSorted [] = tt
sort-IsSorted (k ∷ ks) = insert_sorted-IsSorted k (sort ks) (sort-IsSorted ks)

contains-insert_sorted :
    (k x : ℕ) (ks : List ℕ) → contains k (insert_sorted x ks) ≡ ((x == k) || contains k ks)
contains-insert_sorted k x [] = refl
contains-insert_sorted k x (j ∷ ks) = ground (arith, contains-insert_sorted k x ks)

pub contains-sort : (k : ℕ) (ks : List ℕ) → contains k (sort ks) ≡ contains k ks
contains-sort k [] = refl
contains-sort k (x ∷ ks) = ground (arith, contains-insert_sorted k x (sort ks), contains-sort k ks)

pub contains-snoc :
    (k x : ℕ) (ks : List ℕ) → contains k (ks ++ x ∷ []) ≡ ((x == k) || contains k ks)
contains-snoc k x [] = refl
contains-snoc k x (j ∷ ks) = ground (arith, contains-snoc k x ks)

pub contains-without :
    (k x : ℕ) (ks : List ℕ) → contains k (without x ks) ≡ (not (x == k) && contains k ks)
contains-without k x [] = ground arith
contains-without k x (j ∷ ks) = ground (arith, contains-without k x ks)

pub AllFrom-contains : (j k : ℕ) (ks : List ℕ) → AllFrom j ks → contains k ks ≡ true → j ≤ k
AllFrom-contains j k [] a h = cc
AllFrom-contains j k (x ∷ ks) a h = ground (arith, AllFrom-contains j k ks a.1)

pub last_of-max :
    (j k : ℕ) (ks : List ℕ) → IsSorted (j ∷ ks) → contains k (j ∷ ks) ≡ true → k ≤ last_of j ks
last_of-max j k [] s h = ground arith
last_of-max j k (x ∷ ks) s h = ground (arith, last_of-max x k ks s.1, last_of-max x x ks s.1)

pub contains-last_of : (j : ℕ) (ks : List ℕ) → contains (last_of j ks) (j ∷ ks) ≡ true
contains-last_of j [] = ground arith
contains-last_of j (x ∷ ks) = ground (arith, contains-last_of x ks)

-- The map: no key twice, and its size under each update.
abbrev pub HasUniqueKeys : Dict ℕ MessageExt → Type 0
HasUniqueKeys [] = Unit
HasUniqueKeys ((k, v) ∷ m) = (lookup k m ≡ none) × HasUniqueKeys m

abbrev pub has : Option MessageExt → Bool
has none = false
has (some m) = true

pub insert-HasUniqueKeys :
    (k : ℕ) (v : MessageExt) (m : Dict ℕ MessageExt)
    → HasUniqueKeys m
    → HasUniqueKeys (insert k v m)
insert-HasUniqueKeys k v [] u = (refl, tt)
insert-HasUniqueKeys k v ((j, w) ∷ m) u =
    ground (arith, insert-HasUniqueKeys k v m u.1, lookup-insert k j v m)

pub erase-HasUniqueKeys :
    (k : ℕ) (m : Dict ℕ MessageExt) → HasUniqueKeys m → HasUniqueKeys (erase k m)
erase-HasUniqueKeys k [] u = tt
erase-HasUniqueKeys k ((j, w) ∷ m) u =
    ground (arith, erase-HasUniqueKeys k m u.1, lookup-erase k j m)

pub length-insert :
    (k : ℕ) (v : MessageExt) (m : Dict ℕ MessageExt)
    → length (insert k v m) ≡ (if has (lookup k m) then length m else suc (length m))
length-insert k v [] = refl
length-insert k v ((j, w) ∷ m) = ground (arith, length-insert k v m)

erase_absent : (k : ℕ) (m : Dict ℕ MessageExt) → lookup k m ≡ none → erase k m ≡ m
erase_absent k [] e = refl
erase_absent k ((j, w) ∷ m) e = ground (arith, erase_absent k m)

pub length-erase :
    (k : ℕ) (m : Dict ℕ MessageExt)
    → HasUniqueKeys m
    → length m ≡ (if has (lookup k m) then suc (length (erase k m)) else length (erase k m))
length-erase k [] u = refl
length-erase k ((j, w) ∷ m) u = ground (arith, length-erase k m u.1, erase_absent k m)
