-- ===== src/Broker/Lock/Sequence.antt =====
-- Sequences of the calls by which clients lock and unlock queues (TryLock, TryLockBatch and
-- UnlockBatch of stgbroker/rebalance_lock_manager.go).
use ttstringgolangiot.Base.{
  ℕ, ◌+◌, ◌≤◌, ◌≡◌, refl, sym, ◌∙◌, true, false, some, List, [], ◌∷◌, String, string_eq, nat_eq,
  ◌==◌, ==_iff, if◌then◌else◌, Bool-cases, inl, inr,
}
use ttstringgolangiot.Base.Text.{equal_fold}
use ttstringgolangiot.Broker.Lock.{
  LockEntry, MqLockTable, MqPointer, Item, queue, try_lock, try_lock_batch, unlock_batch,
}
use ttstringgolangiot.Broker.Lock.Exclusion.{
  entry_of, rival_answer, rival_keeps, unlock_batch-keeps,
}
use ttstringgolangiot.Broker.Lock.Rivals.{gives, rival_batch}

pub data Call : Type 0 where
  tries : ℕ → String → MqPointer → String → Call
  tries_batch : ℕ → String → List MqPointer → String → Call
  unlocks : String → List MqPointer → String → Call

abbrev pub group_of : Call → String
group_of (tries now group mq client) = group
group_of (tries_batch now group mqs client) = group
group_of (unlocks group mqs client) = group

-- The call is one of a client other than `holder`, up to `until`.
abbrev pub IsRival : String → ℕ → Call → Type 0
IsRival holder until (tries now group mq client) =
    (equal_fold holder client ≡ false) × (now ≤ until)
IsRival holder until (tries_batch now group mqs client) =
    (equal_fold holder client ≡ false) × (now ≤ until)
IsRival holder until (unlocks group mqs client) = equal_fold holder client ≡ false

abbrev pub AreRivals : String → ℕ → List Call → Type 0
AreRivals holder until [] = Unit
AreRivals holder until (c ∷ calls) = IsRival holder until c × AreRivals holder until calls

-- No answer for the group has the queue.
abbrev pub AllRefused : String → MqPointer → List Call → List (List Item) → Type 0
AllRefused group mq [] answers = Unit
AllRefused group mq (c ∷ calls) [] = ⊥
AllRefused group mq (c ∷ calls) (a ∷ answers) =
    (group_of c ≡ group → gives mq a ≡ false) × AllRefused group mq calls answers

module _ (max_live : ℕ) where
  -- One call; of `TryLock` the answer is the queue when it succeeds.
  unfoldable pub step : MqLockTable → Call → List Item × MqLockTable
  step t (tries now group mq client) =
      let (done, t') = try_lock max_live now t group mq client in
      (if done then queue mq ∷ [] else [], t')
  step t (tries_batch now group mqs client) = try_lock_batch max_live now t group mqs client
  step t (unlocks group mqs client) = ([], unlock_batch t group mqs client)

  -- The answers of a sequence of calls, and the table at the end.
  unfoldable pub run : MqLockTable → List Call → List (List Item) × MqLockTable
  run t [] = ([], t)
  run t (c ∷ calls) =
      let (answer, t') = step t c in let (later, t'') = run t' calls in (answer ∷ later, t'')

  rival_try :
      (now : ℕ) (t : MqLockTable) (group g : String) (mq q : MqPointer) (holder client : String)
      (e : LockEntry)
      → entry_of t group mq ≡ some e
      → equal_fold e.client_id holder ≡ true
      → equal_fold holder client ≡ false
      → now ≤ e.last_update_timestamp + max_live
      → g ≡ group
      → gives mq (step t (tries now g q client)).0 ≡ false
  unfolding step
  rival_try now t group g mq q holder client e held h rival early eq =
      elim (Bool-cases (try_lock max_live now t g q client).0) [
        | inr no_ ↦ rw no_ refl
        | inl done ↦ elim (Bool-cases (q == mq)) [
          | inr other ↦ rw (done, other) refl
          | inl same ↦
              let no_ =
                rival_answer max_live t group mq holder e held h now g q client rival early eq
                  ((==_iff q mq).0 same) in
              absurd (cc (sym done ∙ no_))
        ]
      ]

  rival_step :
      (c : Call) (t : MqLockTable) (group : String) (mq : MqPointer) (holder : String)
      (e : LockEntry)
      → entry_of t group mq ≡ some e
      → equal_fold e.client_id holder ≡ true
      → IsRival holder (e.last_update_timestamp + max_live) c
      → (entry_of (step t c).1 group mq ≡ some e)
        × (group_of c ≡ group → gives mq (step t c).0 ≡ false)
  unfolding step
  rival_step (tries now g q client) t group mq holder e held h (rival, early) = (
    rival_keeps max_live t group mq holder e held h now g q client rival early,
    rival_try now t group g mq q holder client e held h rival early,
  )
  rival_step (tries_batch now g mqs client) t group mq holder e held h (rival, early) =
      rival_batch max_live group mq holder e h now client rival early t g mqs held
  rival_step (unlocks g mqs client) t group mq holder e held h rival =
      (unlock_batch-keeps t g group mqs mq client ∙ held, λ k. refl)

  -- When the table has an entry by which a client has a queue, the client keeps it until the life
  -- time of the entry is over, against every sequence of calls of TryLock, TryLockBatch and
  -- UnlockBatch that other clients make up to then, for any groups and queues: no answer for its
  -- group has the queue, and the entry stays as it is. A queue is known by the address of its
  -- MessageQueue: another address is another queue.
  pub run-exclusive :
      (calls : List Call) (t : MqLockTable) (group : String) (mq : MqPointer) (holder : String)
      (e : LockEntry)
      → entry_of t group mq ≡ some e
      → equal_fold e.client_id holder ≡ true
      → AreRivals holder (e.last_update_timestamp + max_live) calls
      → AllRefused group mq calls (run t calls).0 × (entry_of (run t calls).1 group mq ≡ some e)
  unfolding run
  run-exclusive [] t group mq holder e held h rivals = (tt, held)
  run-exclusive (c ∷ calls) t group mq holder e held h (rival, rivals) =
      let (kept, refused_here) = rival_step c t group mq holder e held h rival in
      let (rest, still) = run-exclusive calls (step t c).1 group mq holder e kept h rivals in
      ((refused_here, rest), still)
