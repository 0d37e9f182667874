-- ===== src/Synchronizer.antt =====
-- backend/coins/btc/synchronizer/synchronizer.go: the counter of outstanding tasks.
-- The lock serialises the calls. A channel is its number; `closed` has those that were closed, and
-- `made` is the number of the next one. The counter is an int32.
pub mod Pairs
mod Tests
use bitbox_wallet_app.Prelude.{
  ℕ, suc, ◌+◌, ◌-◌, ◌%◌, ◌^◌, ◌&&◌, Bool, true, false, List, [], ◌∷◌, ◌++◌, Option, none, some, leb,
  ltb, ◌==◌, if◌then◌else◌,
}
use bitbox_wallet_app.Prelude.Run.{Run, ok, panic, ◌>>=◌}

-- The calls of onSyncStarted and onSyncFinished.
pub data Callback : Type 0 where
  sync_started sync_finished : Callback

pub record Synchronizer : Type 0 where
  pub requests_counter : ℕ
  pub wait : Option ℕ
  pub made : ℕ
  pub closed : List ℕ
  pub called : List Callback

abbrev pub new_synchronizer : Synchronizer
new_synchronizer = record { requests_counter = 0; wait = none; made = 0; closed = []; called = [] }

unfoldable pub increment : ℕ → ℕ
increment n = (n + 1) % 2 ^ 32

unfoldable pub decrement : ℕ → ℕ
decrement n = (n + (2 ^ 32 - 1)) % 2 ^ 32

-- Of an int32.
unfoldable pub is_negative : ℕ → Bool
is_negative n = leb (2 ^ 31) n

unfoldable pub inc_requests_counter : Synchronizer → Synchronizer
unfolding increment
inc_requests_counter s =
    let n = increment s.requests_counter in
    if n == 1
    then record s {
      requests_counter = n;
      wait = some s.made;
      made = suc s.made;
      called = s.called ++ sync_started ∷ [];
    }
    else record s { requests_counter = n }

-- Closing a nil channel panics, and one that is closed too; the code has set wait to nil then.
unfoldable pub close_wait : Option ℕ → Synchronizer → Run ⊥ Synchronizer
close_wait none s = panic
close_wait (some c) s = ok (record s { wait = none; closed = c ∷ s.closed })

unfoldable pub dec_requests_counter : Synchronizer → Run ⊥ Synchronizer
unfolding decrement is_negative close_wait
dec_requests_counter s =
    let n = decrement s.requests_counter in
    if n == 0
    then close_wait s.wait
        (record s { requests_counter = n; called = s.called ++ sync_finished ∷ [] })
    else (if is_negative n then panic else ok (record s { requests_counter = n }))

-- What WaitSynchronized does: it returns, or it waits for a channel to be closed; a nil channel is
-- never closed.
pub data Waiting : Type 0 where
  returns : Waiting
  for_channel : ℕ → Waiting
  for_ever : Waiting

unfoldable pub wait_on : Option ℕ → Waiting
wait_on none = for_ever
wait_on (some c) = for_channel c

unfoldable pub wait_synchronized : Synchronizer → Waiting
unfolding wait_on
wait_synchronized s = if s.requests_counter == 0 then returns else wait_on s.wait
