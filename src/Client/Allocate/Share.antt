-- ===== src/Client/Allocate/Share.antt =====
-- What the shares of a group add up to.
use ttstringgolangiot.Base.{
  ℕ, zero, suc, ◌+◌, ◌-◌, ◌*◌, ◌/◌, ◌%◌, ◌≤◌, ◌<◌, ◌≡◌, ◌⊎◌, inl, inr, if◌then◌else◌, refl, ap, ◌∙◌,
  min, some, List, [], ◌∷◌, arith, ltb, length, get_elem?, take, drop, length-take, length-drop,
}
use ttstringgolangiot.Client.Allocate.{average_size, start_index, range_v, collect, share}
use native.Mathlib.Nat.{mod-eq_of_lt, div-add-mod, div-eq_of_lt, div-eq_of_lt-le, add-zero}
use native.Mathlib.Decide.{dec_lt, dec_le}

-- Where the share of consumer `i` begins: the first `n % c` consumers have one queue more.
abbrev pub bound : ℕ → ℕ → ℕ → ℕ
bound n c i = i * (n / c) + min i (n % c)

-- How many queues the consumer `i` has.
abbrev pub size : ℕ → ℕ → ℕ → ℕ
size n c i = n / c + (if ltb i (n % c) then 1 else 0)

module _ (n c i : ℕ) (h : i < c) where
  mono : (i + 1) * (n / c) ≤ c * (n / c)
  mono = grind arith

  pub split : c * (n / c) + n % c ≡ n
  split = omega (arith, div-add-mod n c)

  pub bound-size : bound n c i + size n c i ≤ n
  bound-size = ground (arith, mono, split)

  few : n ≤ c → ((n < c) × (n / c ≡ 0) × (n % c ≡ n)) ⊎ ((n ≡ c) × (n / c ≡ 1) × (n % c ≡ 0))
  few k = elim (dec_lt n c) [
    | yes p ↦ inl (p, div-eq_of_lt p, mod-eq_of_lt p)
    | no p ↦ inr (once (omega arith))
  ]
    where
      once : n ≡ c → (n ≡ c) × (n / c ≡ 1) × (n % c ≡ 0)
      once e =
          let q : n / c ≡ 1 = div-eq_of_lt-le {k = 1} c (omega arith) (omega arith) in
          (e, q, omega (arith, split, ap (λ k. c * k) q))

  -- The start and the size when there are more queues than consumers, by the two cases.
  many_more :
      c < n → i < n % c → (average_size n c i ≡ n / c + 1) × (start_index n c i ≡ i * (n / c) + i)
  many_more k p =
      let a : average_size n c i ≡ n / c + 1 = ground arith in
      (a, ground (arith, ap (λ t. i * t) a))

  many_less :
      c < n → n % c ≤ i → (average_size n c i ≡ n / c) × (start_index n c i ≡ i * (n / c) + n % c)
  many_less k p =
      let a : average_size n c i ≡ n / c = ground arith in (a, ground (arith, ap (λ t. i * t) a))

  few_all :
      n ≤ c
      → (average_size n c i ≡ 1) × (start_index n c i ≡ (if ltb i (n % c) then i else i + n % c))
  few_all k =
      let a : average_size n c i ≡ 1 = ground arith in (a, ground (arith, ap (λ t. i * t) a))

  range-eq-size : range_v n c i ≡ size n c i
  range-eq-size = elim (dec_le n c) [
    | yes p ↦ grind (arith, few p, few_all p)
    | no p ↦ elim (dec_lt i (n % c)) [
      | yes m ↦ ground (arith, mono, split, many_more (omega arith) m)
      | no l ↦ ground (arith, mono, split, many_less (omega arith) (omega arith))
    ]
  ]

  start-eq-bound : 0 < size n c i → start_index n c i ≡ bound n c i
  start-eq-bound k = elim (dec_le n c) [
    | yes p ↦ grind (arith, few p, few_all p, mono)
    | no p ↦ elim (dec_lt i (n % c)) [
      | yes m ↦ ground (arith, many_more (omega arith) m)
      | no l ↦ ground (arith, many_less (omega arith) (omega arith))
    ]
  ]

module _ {A : Type 0} where
  abbrev segment : List A → ℕ → ℕ → List A
  segment mqs from to = take (to - from) (drop from mqs)

  take-drop-get :
      (mqs : List A) (s r : ℕ)
      → s < length mqs
      → (x : A) × (get_elem? mqs s ≡ some x)
        × (take (suc r) (drop s mqs) ≡ x ∷ take r (drop (s + 1) mqs))
  take-drop-get [] s r h = absurd (omega arith)
  take-drop-get (m ∷ mqs) zero r h = (m, refl, refl)
  take-drop-get (m ∷ mqs) (suc s) r h =
      let (x, e, f) = take-drop-get mqs s r (omega arith) in
      let k : suc (s + 1) ≡ suc s + 1 = omega arith in
      (x, e, f ∙ ap (λ k. x ∷ take r (drop k (m ∷ mqs))) k)

  collect-eq-take :
      (mqs : List A) (start i r : ℕ)
      → start + i + r ≤ length mqs
      → collect mqs start i r ≡ some (take r (drop (start + i) mqs))
  unfolding collect
  collect-eq-take mqs start i zero h = refl
  collect-eq-take mqs start i (suc r) h =
      let (x, e, f) = take-drop-get mqs (start + i) r (omega arith) in
      let k : start + (i + 1) ≡ start + i + 1 = omega arith in
      ground (
        arith,
        e,
        f,
        mod-eq_of_lt {n = start + i} {m = length mqs} (omega arith),
        collect-eq-take mqs start (i + 1) r (omega arith),
        ap (λ k. take r (drop k mqs)) k,
      )

  -- The share of each consumer is a segment of the queues.
  pub share-eq-segment :
      (mqs : List A) (c i : ℕ)
      → i < c
      → share mqs c i ≡ some (take (size (length mqs) c i) (drop (bound (length mqs) c i) mqs))
  unfolding share collect
  share-eq-segment mqs c i h =
      let n = length mqs in
      elim (dec_lt 0 (size n c i)) [
        | yes p ↦
            rw (range-eq-size n c i h, start-eq-bound n c i h p)
              (collect-eq-take mqs (bound n c i) 0 (size n c i) (omega (arith, bound-size n c i h))
                ∙ ap (λ k. some (take (size n c i) (drop k mqs))) (add-zero (bound n c i)))
        | no p ↦ let z : size n c i ≡ 0 = omega arith in rw (range-eq-size n c i h, z)
      ]

  share-length :
      (mqs s : List A) (c i : ℕ) → i < c → share mqs c i ≡ some s → length s ≡ size (length mqs) c i
  share-length mqs s c i h e =
      let n = length mqs in
      let taken : s ≡ take (size n c i) (drop (bound n c i) mqs) =
        cc (share-eq-segment mqs c i h) in
      omega (
        arith,
        ap length taken,
        length-take (size n c i) (drop (bound n c i) mqs),
        length-drop (bound n c i) mqs,
        bound-size n c i h,
      )

  -- The load is even: the shares of two consumers differ by one queue at most.
  pub share_even :
      (mqs s t : List A) (c i j : ℕ)
      → i < c
      → j < c
      → share mqs c i ≡ some s
      → share mqs c j ≡ some t
      → length s ≤ length t + 1
  share_even mqs s t c i j hi hj es et =
      ground (arith, share-length mqs s c i hi es, share-length mqs t c j hj et)
