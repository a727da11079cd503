-- ===== src/Broker/Lock/Rivals.antt =====
-- What TryLockBatch of another client does to a lock that is alive
-- (stgbroker/rebalance_lock_manager.go).
use ttstringgolangiot.Base.{
  ℕ, ◌+◌, ◌≤◌, ◌≡◌, ◌≢◌, refl, sym, ap, ◌∙◌, ◌≟◌, ≟_eq, Bool, true, false, ◌||◌, some, List, [],
  ◌∷◌, ◌++◌, String, arith, string_eq, nat_eq, lookup, insert, ◌==◌, ==_iff, Bool-cases, ◌⊎◌, inl,
  inr,
}
use native.Mathlib.Decide.{ℕ_discrete}
use text.Mathlib.TextEquality.{eq_iff}
use ttstringgolangiot.Base.Text.{equal_fold}
use ttstringgolangiot.Broker.Lock.{
  LockEntry, LockEntryTable, MqLockTable, MqPointer, Attempt, locked, expired, refused, is_success,
  Item, queue, entry, is_locked, attempt, sort_held, attempt_all, group_or_new, try_lock_batch,
}
use ttstringgolangiot.Broker.Lock.Exclusion.{
  entry_of, entry_of-insert, entry_of-insert_keep, lookup-group_or_new, granted, entry_after,
  is_locked_lem, is_locked_others, attempt_lem, attempt_others, rival_refused,
}

-- Whether an answer has a queue.
abbrev pub gives : MqPointer → List Item → Bool
gives mq [] = false
gives mq (queue q ∷ items) = q == mq || gives mq items
gives mq (entry e ∷ items) = gives mq items

refused_attempt : (a : Attempt) → is_success a ≡ false → a ≡ refused
refused_attempt locked h = absurd (cc)
refused_attempt expired h = absurd (cc)
refused_attempt refused h = refl

pub Attempt-cases : (a : Attempt) → (a ≡ locked) ⊎ ((a ≡ expired) ⊎ (a ≡ refused))
Attempt-cases locked = inl refl
Attempt-cases expired = inr (inl refl)
Attempt-cases refused = inr (inr refl)

pub List-cases :
    (l : List MqPointer) → (l ≡ []) ⊎ ((x : MqPointer) × (xs : List MqPointer) × (l ≡ x ∷ xs))
List-cases [] = inl refl
List-cases (x ∷ xs) = inr (x, xs, refl)

gives-append :
    (mq : MqPointer) (xs ys : List Item)
    → gives mq xs ≡ false
    → gives mq ys ≡ false
    → gives mq (xs ++ ys) ≡ false
gives-append mq [] ys hx hy = hy
gives-append mq (queue q ∷ xs) ys hx hy = ground (arith, gives-append mq xs ys)
gives-append mq (entry e ∷ xs) ys hx hy = gives-append mq xs ys hx hy

module _ (max_live : ℕ) where
  module _ (group : String) (mq : MqPointer) (holder : String) (e : LockEntry)
      (h : equal_fold e.client_id holder ≡ true) (now : ℕ) (client : String)
      (rival : equal_fold holder client ≡ false)
      (early : now ≤ e.last_update_timestamp + max_live) where
    not_granted :
        (granted max_live now (some e) client ≡ false)
        × (entry_after max_live now (some e) client ≡ some e)
    not_granted =
        rival_refused max_live now e.last_update_timestamp holder client e h refl rival early

    rival_attempt :
        (entries : LockEntryTable) (q : MqPointer)
        → lookup mq entries ≡ some e
        → (lookup mq (attempt max_live now entries q client).1 ≡ some e)
          × (q ≡ mq → (attempt max_live now entries q client).0 ≡ refused)
    rival_attempt entries q held = elim (ℕ_discrete q mq) [
      | yes same ↦
          let (done, after) = attempt_lem max_live now entries mq client in
          (
            rw same (after ∙ (rw held not_granted.1)),
            λ _. rw same (refused_attempt _ (done ∙ (rw held not_granted.0))),
          )
      | no other ↦ (
        attempt_others max_live now entries q mq client other ∙ held,
        λ same. absurd (other same),
      )
    ]

    rival_attempt_all :
        (entries : LockEntryTable) (mqs : List MqPointer)
        → lookup mq entries ≡ some e
        → (lookup mq (attempt_all max_live now entries mqs client).1 ≡ some e)
          × (gives mq (attempt_all max_live now entries mqs client).0 ≡ false)
    unfolding attempt_all
    rival_attempt_all entries [] held = (held, refl)
    rival_attempt_all entries (q ∷ mqs) held =
        let first = rival_attempt entries q held in
        let rest = rival_attempt_all (attempt max_live now entries q client).1 mqs first.0 in
        elim (Attempt-cases (attempt max_live now entries q client).0) [
          | inl e ↦ rw (attempt_all, e) rest
          | inr (inl e) ↦
              let other : (q == mq) ≡ false = elim (Bool-cases (q == mq)) [
                | inl same ↦ absurd (cc (sym e ∙ first.1 ((==_iff q mq).0 same)))
                | inr other ↦ other
              ] in
              rw (attempt_all, e) (rest.0, rw other rest.1)
          | inr (inr e) ↦ rw (attempt_all, e) rest
        ]

    same_queue :
        (t : MqLockTable)
        → entry_of t group mq ≡ some e
        → is_locked max_live now t group mq client ≡ (false, t)
    same_queue t held = elim (is_locked_lem max_live now t group mq client) [
      | inl (done, yes_, after) ↦
          absurd (cc (sym yes_ ∙ ap (λ o. granted max_live now o client) held ∙ not_granted.0))
      | inr no_ ↦ no_
    ]

    rival_is_locked :
        (t : MqLockTable) (g : String) (q : MqPointer)
        → entry_of t group mq ≡ some e
        → (entry_of (is_locked max_live now t g q client).1 group mq ≡ some e)
          × (g ≡ group → q ≡ mq → (is_locked max_live now t g q client).0 ≡ false)
    rival_is_locked t g q held = elim (Bool-cases (g ≟ group)) [
      | inl same ↦ elim (ℕ_discrete q mq) [
        | yes eq ↦
            let no_ : is_locked max_live now t g q client ≡ (false, t) =
              rw (≟_eq g group same, eq) (same_queue t held) in
            (
              ap (λ p. entry_of p.1 group mq) no_ ∙ held,
              λ _ _. ap (λ (p : Bool × MqLockTable). p.0) no_,
            )
        | no ne ↦ (
          is_locked_others max_live now t g group q mq client (inr ne) ∙ held,
          λ _ eq. absurd (ne eq),
        )
      ]
      | inr other ↦
          let ne : g ≢ group = λ eq. ground (arith, eq_iff g group) in
          (
            is_locked_others max_live now t g group q mq client (inl ne) ∙ held,
            λ eq _. absurd (ne eq),
          )
    ]

    rival_sort_held :
        (t : MqLockTable) (g : String) (mqs : List MqPointer)
        → entry_of t group mq ≡ some e
        → (let (yes_, no_, t') = sort_held max_live now t g mqs client in
            (entry_of t' group mq ≡ some e) × (g ≡ group → gives mq yes_ ≡ false))
    unfolding sort_held
    rival_sort_held t g [] held = (held, λ _. refl)
    rival_sort_held t g (q ∷ mqs) held =
        let first = rival_is_locked t g q held in
        let rest = rival_sort_held (is_locked max_live now t g q client).1 g mqs first.0 in
        elim (Bool-cases (is_locked max_live now t g q client).0) [
          | inr e ↦ rw (sort_held, e) rest
          | inl e ↦
              let other : g ≡ group → (q == mq) ≡ false = λ eq. elim (Bool-cases (q == mq)) [
                | inl same ↦ absurd (cc (sym e ∙ first.1 eq ((==_iff q mq).0 same)))
                | inr other ↦ other
              ] in
              rw (sort_held, e) (rest.0, λ eq. rw (other eq) (rest.1 eq))
        ]

    pub rival_batch :
        (t : MqLockTable) (g : String) (mqs : List MqPointer)
        → entry_of t group mq ≡ some e
        → (entry_of (try_lock_batch max_live now t g mqs client).1 group mq ≡ some e)
          × (g ≡ group → gives mq (try_lock_batch max_live now t g mqs client).0 ≡ false)
    unfolding try_lock_batch
    rival_batch t g mqs held =
        let sorted = rival_sort_held t g mqs held in
        let t' = (sort_held max_live now t g mqs client).2 in
        elim (List-cases (sort_held max_live now t g mqs client).1) [
          | inl none_left ↦ rw (try_lock_batch, none_left) sorted
          | inr (q, rest, left) ↦
              let entries = (attempt_all max_live now (group_or_new t' g) (q ∷ rest) client).1 in
              elim (Bool-cases (g ≟ group)) [
                | inl same ↦
                    let eq : g ≡ group = ≟_eq g group same in
                    let all =
                      rival_attempt_all (group_or_new t' g) (q ∷ rest)
                        (lookup-group_or_new t' g mq ∙ ap (λ x. entry_of t' x mq) eq ∙ sorted.0) in
                    rw (try_lock_batch, left)
                      (
                        ap (λ x. entry_of (insert g entries t') x mq) (sym eq)
                            ∙ entry_of-insert t' g mq entries
                            ∙ all.0,
                        λ k.
                            gives-append mq (sort_held max_live now t g mqs client).0
                              (attempt_all max_live now (group_or_new t' g) (q ∷ rest) client).0
                              (sorted.1 k) all.1,
                      )
                | inr other ↦
                    let ne : g ≢ group = λ eq. ground (arith, eq_iff g group) in
                    rw (try_lock_batch, left)
                      (
                        entry_of-insert_keep t' g group mq entries (inl ne) ∙ sorted.0,
                        λ k. absurd (ne k),
                      )
              ]
        ]
