-- ===== src/Broker/PullHold.antt =====
-- ManyPullRequest (stgbroker/longpolling/many_pull_request.go) and notifyMessageArriving of
-- PullRequestHoldService (stgbroker/pull_request_hold_service.go): the pull requests that wait for
-- a message in one queue. The table of the queues is a map of a library, the clock and the greatest
-- offset of the queue, which the store is asked for again, are parameters. `command` names the
-- request and its connection.
use ttstringgolangiot.Base.{
  ℕ, ◌+◌, ◌≡◌, refl, ap, inl, inr, Bool, not, ◌||◌, Option, none, some, List, [], ◌∷◌, ◌++◌, ltb,
  leb, if◌then◌else◌, Bool-cases,
}

pub record PullRequest : Type 0 where
  pub command : ℕ
  pub timeout_millis : ℕ
  pub suspend_timestamp : ℕ
  pub pull_from_this_offset : ℕ

abbrev pub ManyPullRequest : Type 0
ManyPullRequest = List PullRequest

unfoldable pub add_pull_request : PullRequest → ManyPullRequest → ManyPullRequest
add_pull_request r m = m ++ (r ∷ [])

-- `AddManyPullRequest`: before the requests that are there.
unfoldable pub add_many_pull_request : List PullRequest → ManyPullRequest → ManyPullRequest
add_many_pull_request rs m = rs ++ m

-- `CloneListAndClear`.
unfoldable pub clone_list_and_clear : ManyPullRequest → Option (List PullRequest) × ManyPullRequest
clone_list_and_clear [] = (none, [])
clone_list_and_clear (r ∷ m) = (some (r ∷ m), [])

-- A request is executed when the offset has come or when it has waited long enough.
abbrev pub is_due : ℕ → ℕ → ℕ → PullRequest → Bool
is_due max_offset newest now r =
    ltb r.pull_from_this_offset max_offset
    || ltb r.pull_from_this_offset newest
    || leb (r.suspend_timestamp + r.timeout_millis) now

-- The loop of `notifyMessageArriving`: what it executes and what it puts back, in order.
unfoldable pub sort_requests : ℕ → ℕ → ℕ → List PullRequest → List PullRequest × List PullRequest
sort_requests max_offset newest now [] = ([], [])
sort_requests max_offset newest now (r ∷ rs) =
    let rest = sort_requests max_offset newest now rs in
    if is_due max_offset newest now r then (r ∷ rest.0, rest.1) else (rest.0, r ∷ rest.1)

-- `notifyMessageArriving` for the requests of one queue, while `arriving` are added by others: what
-- is executed, and the requests after it.
unfoldable pub notify_message_arriving :
    ℕ → ℕ → ℕ → List PullRequest → ManyPullRequest → List PullRequest × ManyPullRequest
notify_message_arriving max_offset newest now arriving m =
    let taken = clone_list_and_clear m in
    let during = (taken.1) ++ arriving in
    elim (taken.0) [
      | none ↦ ([], during)
      | some requests ↦
          let sorted = sort_requests max_offset newest now requests in
          (sorted.0, add_many_pull_request sorted.1 during)
    ]

-- The requests that are due, and those that are not.
pub keep : (PullRequest → Bool) → List PullRequest → List PullRequest
keep p [] = []
keep p (r ∷ rs) = if p r then r ∷ keep p rs else keep p rs

sort_requests-keep :
    (max_offset newest now : ℕ) (rs : List PullRequest)
    → sort_requests max_offset newest now rs ≡ (
      keep (is_due max_offset newest now) rs,
      keep (λ r. not (is_due max_offset newest now r)) rs,
    )
unfolding sort_requests keep
sort_requests-keep max_offset newest now [] = refl
sort_requests-keep max_offset newest now (r ∷ rs) =
    let rest = sort_requests-keep max_offset newest now rs in
    elim (Bool-cases (is_due max_offset newest now r)) [
      | inl e ↦ rw (e, rest) refl
      | inr e ↦ rw (e, rest) refl
    ]

-- A notification executes the waiting requests that are due, each once and in their order, and the
-- others wait on in their order, before those that came in the meantime: none is lost.
pub notify_message_arriving_lem :
    (max_offset newest now : ℕ) (arriving : List PullRequest) (m : ManyPullRequest)
    → notify_message_arriving max_offset newest now arriving m ≡ (
      keep (is_due max_offset newest now) m,
      keep (λ r. not (is_due max_offset newest now r)) m ++ arriving,
    )
unfolding notify_message_arriving clone_list_and_clear add_many_pull_request keep
notify_message_arriving_lem max_offset newest now arriving [] = refl
notify_message_arriving_lem max_offset newest now arriving (r ∷ m) =
    ap (λ sorted. (sorted.0, sorted.1 ++ arriving))
      (sort_requests-keep max_offset newest now (r ∷ m))
