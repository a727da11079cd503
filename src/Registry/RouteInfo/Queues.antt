-- ===== src/Registry/RouteInfo/Queues.antt =====
-- The loops that delete from the slice they range over, when no broker has two entries in it.
use ttstringgolangiot.Base.{
  ℕ, zero, suc, ◌+◌, ◌-◌, ◌≤◌, ◌≡◌, refl, sym, ap, ◌∙◌, Bool, true, false, ◌||◌, some, List, [],
  ◌∷◌, ◌++◌, append_assoc, append-nil, String, ltb, if◌then◌else◌, length, length-append, get_elem?,
  take, drop, string_eq, ◌≟◌, ≟_eq, arith, Bool-cases, inl, inr, subst,
}
use ttstringgolangiot.Registry.RouteInfo.{QueueData}
use ttstringgolangiot.Registry.RouteInfo.Slice.{finished, remove_from, remove_queues, cut}

-- Is there an entry of the broker, and the list without its entries.
unfoldable pub has_broker : String → List QueueData → Bool
has_broker name [] = false
has_broker name (q ∷ qs) = (q.broker_name ≟ name) || has_broker name qs

unfoldable pub without : String → List QueueData → List QueueData
without name [] = []
without name (q ∷ qs) =
    let rest = without name qs in if q.broker_name ≟ name then rest else q ∷ rest

unfoldable pub OneEach : List QueueData → Type 0
OneEach [] = Unit
OneEach (q ∷ qs) = (has_broker q.broker_name qs ≡ false) × OneEach qs

get_elem?-append :
    (pre : List QueueData) (q : QueueData) (post : List QueueData)
    → get_elem? (pre ++ q ∷ post) (length pre) ≡ some q
get_elem?-append [] q post = refl
get_elem?-append (p ∷ pre) q post = get_elem?-append pre q post

pub take-length : (pre post : List QueueData) → take (length pre) (pre ++ post) ≡ pre
take-length [] post = refl
take-length (p ∷ pre) post = ap (λ l. p ∷ l) (take-length pre post)

drop-length :
    (k : ℕ) (pre post : List QueueData) → drop (length pre + k) (pre ++ post) ≡ drop k post
drop-length k [] post = ap (λ n. drop n post) (omega arith)
drop-length k (p ∷ pre) post =
    let e : length (p ∷ pre) + k ≡ suc (length pre + k) = omega arith in
    ap (λ n. drop n (p ∷ pre ++ post)) e ∙ drop-length k pre post

length-snoc : (pre : List QueueData) (q : QueueData) → length (pre ++ q ∷ []) ≡ length pre + 1
length-snoc pre q = omega (arith, length-append pre (q ∷ []))

-- Rounds that meet no entry of the broker leave everything.
remove_from-none :
    (name : String) (pre post : List QueueData) (len r : ℕ)
    → has_broker name post ≡ false
    → r ≤ length post
    → remove_from name (pre ++ post) len (length pre) r ≡ finished (take len (pre ++ post))
unfolding remove_from has_broker
remove_from-none name pre post len zero none_in h = refl
remove_from-none name pre [] len (suc r) none_in h = absurd (omega arith)
remove_from-none name pre (q ∷ post) len (suc r) none_in h =
    let other : (q.broker_name ≟ name) ≡ false = ground arith in
    let rest : has_broker name post ≡ false = ground arith in
    let ih = remove_from-none name (pre ++ q ∷ []) post len r rest (omega arith) in
    rw (
      remove_from,
      get_elem?-append pre q post,
      other,
      sym (length-snoc pre q),
      sym (append_assoc pre (q ∷ []) post),
      ih,
    )

take_all : (xs : List QueueData) → take (length xs) xs ≡ xs
take_all [] = refl
take_all (x ∷ xs) = ap (λ l. x ∷ l) (take_all xs)

-- What one deletion leaves: the last element of the array stands there twice.
cut_lem :
    (pre : List QueueData) (q : QueueData) (post : List QueueData)
    → cut (pre ++ q ∷ post) (length (pre ++ q ∷ post)) (length pre)
      ≡ some (pre ++ (post ++ drop (length post) (q ∷ post)), length pre + length post)
unfolding cut
cut_lem pre q post =
    let n : length (pre ++ q ∷ post) ≡ length pre + suc (length post) =
      length-append pre (q ∷ post) in
    let inside : ltb (length pre) (length (pre ++ q ∷ post)) ≡ true = ground (arith, n) in
    let last : length (pre ++ q ∷ post) - 1 ≡ length pre + length post = omega (arith, n) in
    rw (
      inside,
      take_all (pre ++ q ∷ post),
      take-length pre (q ∷ post),
      drop-length 1 pre (q ∷ post),
      last,
      drop-length (length post) pre (q ∷ post),
    )

has_broker-append :
    (name : String) (xs ys : List QueueData)
    → has_broker name (xs ++ ys) ≡ (has_broker name xs || has_broker name ys)
unfolding has_broker
has_broker-append name [] ys = refl
has_broker-append name (x ∷ xs) ys = ground (arith, has_broker-append name xs ys)

last-one : (q : QueueData) (post : List QueueData) → length (drop (length post) (q ∷ post)) ≡ 1
last-one q [] = refl
last-one q (p ∷ post) = last-one p post

last-has_broker :
    (name : String) (q : QueueData) (post : List QueueData)
    → has_broker name (q ∷ post) ≡ false
    → has_broker name (drop (length post) (q ∷ post)) ≡ false
unfolding has_broker
last-has_broker name q [] h = h
last-has_broker name q (p ∷ post) h = last-has_broker name p post (ground arith)

take-append : (xs ys : List QueueData) (n : ℕ) → n ≡ length xs → take n (xs ++ ys) ≡ xs
take-append xs ys n e = ap (λ k. take k (xs ++ ys)) e ∙ take-length xs ys

-- The rounds after a deletion, when the broker has no other entry.
remove_from-cut :
    (name : String) (pre : List QueueData) (q : QueueData) (post : List QueueData)
    → has_broker name post ≡ false
    → remove_from name
        (pre ++ (post ++ drop (length post) (q ∷ post)))
        (length pre + length post)
        (length pre + 1)
        (length post)
      ≡ finished (pre ++ post)
unfolding remove_from has_broker
remove_from-cut name pre q [] none_in =
    ap finished (take-append pre (q ∷ []) (length pre + 0) (omega arith) ∙ sym (append-nil pre))
remove_from-cut name pre q (p ∷ post) none_in =
    let tail = drop (length post) (p ∷ post) in
    let absent : has_broker name (post ++ tail) ≡ false =
      ground (arith, has_broker-append name post tail, last-has_broker name p post none_in) in
    let rounds : length (p ∷ post) ≤ length (post ++ tail) =
      omega (arith, length-append post tail, last-one p post) in
    let run =
      remove_from-none name (pre ++ p ∷ []) (post ++ tail) (length pre + length (p ∷ post))
        (length (p ∷ post)) absent rounds in
    let whole : take (length pre + length (p ∷ post)) ((pre ++ p ∷ post) ++ tail)
        ≡ pre ++ p ∷ post =
      take-append (pre ++ p ∷ post) tail (length pre + length (p ∷ post))
        (sym (length-append pre (p ∷ post))) in
    ap
      (λ a.
        remove_from name a (length pre + length (p ∷ post)) (length pre + 1) (length (p ∷ post)))
      (sym (append_assoc pre (p ∷ []) (post ++ tail)))
    ∙ ap
        (λ i.
          remove_from name ((pre ++ p ∷ []) ++ (post ++ tail)) (length pre + length (p ∷ post)) i
            (length (p ∷ post)))
        (sym (length-snoc pre p))
    ∙ run
    ∙ ap (λ l. finished (take (length pre + length (p ∷ post)) l))
        (append_assoc pre (p ∷ []) (post ++ tail) ∙ sym (append_assoc pre (p ∷ post) tail))
    ∙ ap finished whole

without-none :
    (name : String) (qs : List QueueData) → has_broker name qs ≡ false → without name qs ≡ qs
unfolding has_broker without
without-none name [] h = refl
without-none name (q ∷ qs) h = ground (arith, without-none name qs (ground arith))

remove_from-OneEach :
    (name : String) (pre post : List QueueData)
    → OneEach post
    → remove_from name (pre ++ post) (length (pre ++ post)) (length pre) (length post)
      ≡ finished (pre ++ without name post)
unfolding remove_from without OneEach
remove_from-OneEach name pre [] one = ap finished (take_all (pre ++ []))
remove_from-OneEach name pre (q ∷ post) one = elim (Bool-cases (q.broker_name ≟ name)) [
  | inl same ↦
      let gone : has_broker name post ≡ false =
        subst (λ n. has_broker n post ≡ false) (≟_eq q.broker_name name same) one.0 in
      rw (
        remove_from,
        get_elem?-append pre q post,
        same,
        cut_lem pre q post,
        remove_from-cut name pre q post gone,
        without-none name post gone,
      )
  | inr other ↦
      let ih = remove_from-OneEach name (pre ++ q ∷ []) post one.1 in
      rw (
        remove_from,
        get_elem?-append pre q post,
        other,
        sym (length-snoc pre q),
        sym (append_assoc pre (q ∷ []) post),
        ih,
        append_assoc pre (q ∷ []) (without name post),
      )
]

-- In a list that has at most one entry of each broker, the deleting loop takes out the broker's
-- entry and nothing else, and does not panic.
pub remove_queues-OneEach :
    (name : String) (qs : List QueueData)
    → OneEach qs
    → remove_queues name qs ≡ finished (without name qs)
unfolding remove_queues
remove_queues-OneEach name qs one = remove_from-OneEach name [] qs one
