-- ===== src/BaseAccount/Rounds.antt =====
-- The events of an account whose tasks start and end.
use bitbox_wallet_app.Prelude.{
  ℕ, zero, suc, ◌≡◌, refl, ap, ◌∙◌, Bool, true, false, List, [], ◌∷◌, ◌++◌, some, if◌then◌else◌,
}
use bitbox_wallet_app.Prelude.Run.{ok}
use bitbox_wallet_app.Synchronizer.{Callback, sync_started, sync_finished, new_synchronizer}
use bitbox_wallet_app.Synchronizer.Pairs as P
use bitbox_wallet_app.Synchronizer.Pairs.{pairs, run, outstanding, run_lem}
use bitbox_wallet_app.BaseAccount.{
  Event, status_changed, event_sync_started, sync_done, BaseAccount, new_base_account, on_event,
  on_callback,
}

-- The account after the callbacks, in turn.
abbrev pub replay : List Callback → BaseAccount → BaseAccount
replay [] a = a
replay (c ∷ cs) a = replay cs (on_callback c a)

replay-append :
    (cs ds : List Callback) (a : BaseAccount) → replay (cs ++ ds) a ≡ replay ds (replay cs a)
replay-append [] ds a = refl
replay-append (c ∷ cs) ds a = replay-append cs ds (on_callback c a)

-- The events of k rounds: the status changes in the first one only.
abbrev pub rounds : ℕ → List Event
rounds zero = []
rounds (suc zero) = event_sync_started ∷ status_changed ∷ sync_done ∷ []
rounds (suc (suc k)) = (rounds (suc k) ++ event_sync_started ∷ []) ++ sync_done ∷ []

abbrev pub is_positive : ℕ → Bool
is_positive zero = false
is_positive (suc k) = true

abbrev pub account_after : ℕ → BaseAccount
account_after k = record new_base_account { synced = is_positive k; events = rounds k }

replay-pairs : (k : ℕ) → replay (pairs k) new_base_account ≡ account_after k
unfolding on_callback on_event
replay-pairs zero = refl
replay-pairs (suc zero) = refl
replay-pairs (suc (suc k)) =
    replay-append (pairs (suc k) ++ sync_started ∷ []) (sync_finished ∷ []) new_base_account
    ∙ ap (λ (a : BaseAccount). on_callback sync_finished a)
        (replay-append (pairs (suc k)) (sync_started ∷ []) new_base_account
          ∙ ap (λ (a : BaseAccount). on_callback sync_started a) (replay-pairs (suc k)))

-- However tasks start and end, if none ends that has not started and always fewer than 2 ^ 31 are
-- outstanding: the synchronizer's calls return, and a new account whose callbacks it called is
-- synchronised exactly if a round of tasks has ended. The frontend got a start and an end for each
-- round, in turn, and the change of the status once, just before the end of the first round; and a
-- start more if tasks are outstanding.
pub replay_lem :
    (es : List P.Event) (n : ℕ)
    → outstanding 0 es ≡ some n
    → (k : ℕ) × (run es new_synchronizer ≡ ok (P.synced n k))
      × (replay (P.synced n k).called new_base_account ≡ (
          if is_positive n then on_event event_sync_started (account_after k) else account_after k))
unfolding on_callback
replay_lem es n e = let (k, r, waits) = run_lem es n e in (k, r, after n k)
  where
    after :
        (n k : ℕ)
        → replay (P.synced n k).called new_base_account ≡ (
            if is_positive n
            then on_event event_sync_started (account_after k)
            else account_after k)
    after zero k = replay-pairs k
    after (suc n) k =
        replay-append (pairs k) (sync_started ∷ []) new_base_account
        ∙ ap (λ (a : BaseAccount). on_event event_sync_started a) (replay-pairs k)
