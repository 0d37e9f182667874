-- ===== src/Synchronizer/Tests.antt =====
-- Two rounds of tasks, and the theorems at them.
use bitbox_wallet_app.Prelude.{◌≡◌, refl, ℕ, List, [], ◌∷◌, ◌++◌, some}
use bitbox_wallet_app.Prelude.Run.{ok}
use bitbox_wallet_app.Synchronizer.{
  sync_started, sync_finished, new_synchronizer, increment, decrement, is_negative,
  inc_requests_counter, close_wait, dec_requests_counter, for_channel, wait_on, wait_synchronized,
}
use bitbox_wallet_app.Synchronizer.Pairs.{Event, started, finished, run, synced, waits, run_lem}

program : Unit {0}
unfolding increment decrement is_negative inc_requests_counter close_wait dec_requests_counter
    wait_on wait_synchronized
program = tt

abbrev round : List Event
round = started ∷ started ∷ finished ∷ finished ∷ []

abbrev events : List Event
events = round ++ started ∷ []

rounds_run :
    (run events new_synchronizer
      ≡ ok (record {
        requests_counter = 1;
        wait = some 1;
        made = 2;
        closed = 0 ∷ [];
        called = sync_started ∷ sync_finished ∷ sync_started ∷ [];
      }))
    × (wait_synchronized (synced 1 1) ≡ for_channel 1)
unfolding program
rounds_run = (refl, refl)

run_example :
    (k : ℕ) × (run events new_synchronizer ≡ ok (synced 1 k))
    × (wait_synchronized (synced 1 k) ≡ waits 1 k)
run_example = run_lem events 1 refl
