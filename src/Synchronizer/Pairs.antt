-- ===== src/Synchronizer/Pairs.antt =====
-- The callbacks come in pairs, and waiting ends when no task is outstanding.
use bitbox_wallet_app.Prelude.{
  ℕ, zero, suc, ◌+◌, ◌-◌, ◌%◌, ◌^◌, ◌<◌, ◌≡◌, inl, inr, refl, ap, false, List, [], ◌∷◌, ◌++◌,
  Option, none, some, ltb, leb, ◌==◌, ltb→lt, arith, Bool-cases, if◌then◌else◌,
}
use bitbox_wallet_app.Prelude.Run.{Run, ok, panic, ◌>>=◌, >>=-eq-ok}
use bitbox_wallet_app.Synchronizer.{
  Callback, sync_started, sync_finished, Synchronizer, new_synchronizer, increment, decrement,
  is_negative, inc_requests_counter, close_wait, dec_requests_counter, Waiting, returns,
  for_channel, wait_on, wait_synchronized,
}

-- The starts and ends of tasks.
pub data Event : Type 0 where
  started finished : Event

abbrev on_event : Event → Synchronizer → Run ⊥ Synchronizer
on_event started s = ok (inc_requests_counter s)
on_event finished s = dec_requests_counter s

abbrev pub run : List Event → Synchronizer → Run ⊥ Synchronizer
run [] s = ok s
run (e ∷ es) s = on_event e s >>= λ s'. run es s'

-- The number of outstanding tasks after the events, if always fewer than 2 ^ 31 are outstanding, and
-- none ends that has not started.
abbrev pub outstanding : ℕ → List Event → Option ℕ
outstanding n [] = some n
outstanding n (started ∷ es) =
    let rest = outstanding (suc n) es in if ltb (suc n) (2 ^ 31) then rest else none
outstanding zero (finished ∷ es) = none
outstanding (suc n) (finished ∷ es) = outstanding n es

abbrev pub pairs : ℕ → List Callback
pairs zero = []
pairs (suc k) = (pairs k ++ sync_started ∷ []) ++ sync_finished ∷ []

abbrev pub countdown : ℕ → List ℕ
countdown zero = []
countdown (suc k) = k ∷ countdown k

-- With no outstanding task, after k rounds; and with some, in the round after.
abbrev pub synced : ℕ → ℕ → Synchronizer
synced zero k = record {
  requests_counter = 0;
  wait = none;
  made = k;
  closed = countdown k;
  called = pairs k;
}
synced (suc n) k = record {
  requests_counter = suc n;
  wait = some k;
  made = suc k;
  closed = countdown k;
  called = pairs k ++ sync_started ∷ [];
}

abbrev pub waits : ℕ → ℕ → Waiting
waits zero k = returns
waits (suc n) k = for_channel k

inc-synced : (n k : ℕ) → suc n < 2 ^ 31 → inc_requests_counter (synced n k) ≡ synced (suc n) k
unfolding inc_requests_counter increment
inc-synced zero k h = refl
inc-synced (suc n) k h =
    let same : (suc n + 1) % 2 ^ 32 ≡ suc (suc n) = omega arith in
    let other : (suc (suc n) == 1) ≡ false = ground arith in rw (same, other) refl

dec-synced :
    (n k : ℕ)
    → suc n < 2 ^ 31
    → (j : ℕ) × (dec_requests_counter (synced (suc n) k) ≡ ok (synced n j))
unfolding dec_requests_counter decrement is_negative close_wait
dec-synced zero k h = (suc k, refl)
dec-synced (suc n) k h =
    let same : (suc (suc n) + (2 ^ 32 - 1)) % 2 ^ 32 ≡ suc n = omega arith in
    let small : leb (2 ^ 31) (suc n) ≡ false = ground arith in
    let other : (suc n == 0) ≡ false = ground arith in (k, rw (same, small, other) refl)

run-synced :
    (es : List Event) (m k n : ℕ)
    → m < 2 ^ 31
    → outstanding m es ≡ some n
    → (j : ℕ) × (run es (synced m k) ≡ ok (synced n j))
run-synced [] m k n h e = let same : m ≡ n = cc in (k, ap (λ (x : ℕ). ok (synced x k)) same)
run-synced (started ∷ es) m k n h e = elim (Bool-cases (ltb (suc m) (2 ^ 31))) [
  | inl small ↦
      let lt = ltb→lt (suc m) (2 ^ 31) small in
      rw (inc-synced m k lt) (run-synced es (suc m) k n lt (rw small at e))
  | inr large ↦ (let r = rw large at e in cc)
]
run-synced (finished ∷ es) zero k n h e = cc
run-synced (finished ∷ es) (suc m) k n h e =
    let (j, step) = dec-synced m k h in rw step (run-synced es m j n (omega arith) e)

-- However tasks start and end, if none ends that has not started and always fewer than 2 ^ 31 are
-- outstanding: the calls return; the counter is the number of outstanding tasks; the callbacks were
-- called in turns, sync started first, and the last one was sync finished exactly if no task is
-- outstanding; the channels of all finished rounds are closed, each once; and WaitSynchronized
-- returns exactly if no task is outstanding, and else waits for the channel of the round, which is
-- not closed.
pub run_lem :
    (es : List Event) (n : ℕ)
    → outstanding 0 es ≡ some n
    → (k : ℕ) × (run es new_synchronizer ≡ ok (synced n k))
      × (wait_synchronized (synced n k) ≡ waits n k)
unfolding wait_synchronized wait_on
run_lem es n e = let (k, r) = run-synced es 0 0 n (omega arith) e in (k, r, waits_on n k)
  where
    waits_on : (n k : ℕ) → wait_synchronized (synced n k) ≡ waits n k
    waits_on zero k = refl
    waits_on (suc n) k = let other : (suc n == 0) ≡ false = ground arith in rw other refl

run-append :
    (es fs : List Event) (s s' : Synchronizer) → run es s ≡ ok s' → run (es ++ fs) s ≡ run fs s'
run-append [] fs s s' e = let same : s ≡ s' = cc in ap (λ (x : Synchronizer). run fs x) same
run-append (x ∷ es) fs s s' e =
    let (t, first, rest) = >>=-eq-ok (on_event x s) (λ s'. run es s') e in
    rw first (run-append es fs t s' rest)

-- After events of that kind that leave no task outstanding, one more end of a task panics.
pub run_none :
    (es : List Event)
    → outstanding 0 es ≡ some 0
    → run (es ++ finished ∷ []) new_synchronizer ≡ panic
unfolding dec_requests_counter decrement is_negative
run_none es e =
    let (k, r) = run-synced es 0 0 0 (omega arith) e in
    run-append es (finished ∷ []) new_synchronizer (synced 0 k) r
