-- ===== src/Headers/Tests.antt =====
-- The headers of small chains, and the theorems at them.
use bitbox_wallet_app.Prelude.{
  ℕ, zero, suc, ◌<◌, ◌≡◌, ◌-◌, refl, sym, ap, ◌∙◌, false, List, [], ◌∷◌, ◌++◌, Option, none, some,
  arith, length, take, get_elem?, ltb, le→ltb, get_elem?-lt,
}
use mathlib.Core.Path.{subst}
use bitbox_wallet_app.Prelude.Int64.{sub, lt, is_negative}
use bitbox_wallet_app.Prelude.Run.{ok, err, panic}
use bitbox_wallet_app.Headers.Db.{
  Header, zero_header, is_zero, size, read, header_by_height, put_header, revert_to, fix_loop,
  fix_trailing_zeroes_headers,
}
use bitbox_wallet_app.Headers.Db.Slots.{IsFixed, fix_trailing_zeroes_headers_lem, kept_slots}
use bitbox_wallet_app.Headers.Net.{
  main_net, test_net3, other_net, Params, Checkpoint, checkpoint, checks_work, is_ltc_main,
}
use bitbox_wallet_app.Headers.Target.{
  prev_hash, wrong_genesis, unexpected_difficulty, require, clamp_timespan, new_target,
  blocks_per_retarget, first_index, retarget, get_target,
}
use bitbox_wallet_app.Headers.Connect.{
  Crypto, ensure, pow_hash, check_checkpoint, check_proof, check_work, can_connect,
}
use bitbox_wallet_app.Headers.Connect.Checks.{Connects, can_connect-Connects}
use bitbox_wallet_app.Headers.Sync.{
  Headers, new_headers, kick, notify_event, deliveries, subscribe_event, unsubscribe, clear_at,
  update, tip_height, initialize, reorg, reorg_size, min, finish_batch, conclude_batch, connect_all,
  process_batch, download_and_process_batch, download, verified_header_by_height, status, close,
  synced, new_tip,
}
use bitbox_wallet_app.Headers.Sync.Links.{IsChain, IsChain-nil}
use bitbox_wallet_app.Headers.Sync.Batch.{IsBatch}
use bitbox_wallet_app.Headers.Sync.Reorg.{process_batch-reorg}
use bitbox_wallet_app.Headers.Sync.Chain.{process_batch-IsChain, download-linked}

-- The hash of a header is its nonce.
abbrev crypto : Crypto
crypto = record {
  block_hash = λ h. h.nonce;
  compact_to_big = λ bits. bits;
  big_to_compact = λ target. target;
  double_hash = λ h. h.merkle_root;
  scrypt_hash = λ h. h.merkle_root;
}

abbrev local_params : Params
local_params = record {
  net = other_net;
  genesis_hash = 7;
  genesis_bits = 1000;
  target_timespan = 40;
  target_time_per_block = 10;
  retarget_adjustment_factor = 4;
  pow_limit = 5000;
}

abbrev main_params : Params
main_params = record local_params { net = main_net }

abbrev header_of : ℕ → ℕ → ℕ → ℕ → Header
header_of previous hash time bits = record {
  version = 1;
  prev_block = previous;
  merkle_root = 500;
  timestamp = time;
  bits = bits;
  nonce = hash;
}

abbrev chain : List Header
chain =
    header_of 0 7 100 1000
    ∷ header_of 7 8 110 1000
    ∷ header_of 8 9 120 1000
    ∷ header_of 9 10 180 1000
    ∷ []

-- The definitions that the runs below compute.
program : Unit {0}
unfolding sub lt is_negative is_zero size read header_by_height put_header revert_to fix_loop
    fix_trailing_zeroes_headers checkpoint checks_work is_ltc_main require clamp_timespan new_target
    blocks_per_retarget first_index retarget get_target ensure pow_hash check_checkpoint check_proof
    check_work can_connect new_headers kick notify_event deliveries subscribe_event unsubscribe
    clear_at update tip_height initialize reorg reorg_size min finish_batch conclude_batch
    connect_all process_batch download_and_process_batch download status close
program = tt

-- Three slots, two of them empty.
fix_run :
    fix_trailing_zeroes_headers (header_of 0 7 100 1000 ∷ zero_header ∷ zero_header ∷ [])
    ≡ ok (header_of 0 7 100 1000 ∷ [])
unfolding program
fix_run = refl

retarget_run : get_target crypto.compact_to_big main_params chain 4 ≡ ok 2000
unfolding program
retarget_run = refl

connect_run :
    (can_connect crypto main_params chain 4 (header_of 10 11 190 2000) ≡ ok tt)
    × (can_connect crypto main_params chain 4 (header_of 10 11 190 1000)
        ≡ err unexpected_difficulty)
    × (can_connect crypto main_params chain 4 (header_of 9 11 190 2000) ≡ err prev_hash)
    × (can_connect crypto main_params [] 0 (header_of 9 11 190 2000) ≡ err wrong_genesis)
unfolding program
connect_run = (refl, refl, refl, refl)

-- A batch of the whole chain: the client is told that it is synced.
download_run :
    (download crypto local_params
      (none ∷ some (chain, 2016) ∷ [])
      (subscribe_event 5 (update 4 (initialize (new_headers [])))).0).delivered
    ≡ (5, synced) ∷ []
unfolding program
download_run = refl

reorg_run :
    (process_batch crypto local_params (new_headers chain) 4 (header_of 99 11 190 0 ∷ []) 2016).0.db
    ≡ []
unfolding program
reorg_run = refl

status_run :
    status crypto (update 9 (new_headers chain))
    ≡ ok (record { tip_at_init_time = 1; tip = 4; tip_hash_hex = 10; target_height = 9 })
unfolding program
status_run = refl

close_run : (close (close (new_headers [])).0).1 ≡ panic
unfolding program
close_run = refl

unsubscribe_run :
    (update 3
      (unsubscribe 0 (subscribe_event 2 (subscribe_event 1 (new_headers [])).0).0)).delivered
    ≡ (2, new_tip) ∷ []
unfolding program
unsubscribe_run = refl

process_batch-IsChain_example :
    IsChain crypto local_params
      (process_batch crypto local_params (new_headers []) (size []) chain 2016).0.db
    × IsBatch crypto local_params [] chain
        (process_batch crypto local_params (new_headers []) (size []) chain 2016).0.db
unfolding new_headers
process_batch-IsChain_example =
    process_batch-IsChain crypto local_params (new_headers []) chain 2016
      (IsChain-nil crypto local_params)

abbrev answers : List (Option (List Header × ℕ))
answers = some (take 2 chain, 2016) ∷ none ∷ some (take 1 chain, 2016) ∷ []

process_batch-reorg_example :
    process_batch crypto main_params (new_headers chain) 4 (header_of 99 11 190 0 ∷ []) 2016
    ≡ (kick (record (new_headers chain) { db = take (4 - 100) chain }), ok tt)
unfolding program
process_batch-reorg_example =
    process_batch-reorg crypto main_params (new_headers chain) 3 (header_of 9 10 180 1000)
      (header_of 99 11 190 0) [] 2016 refl refl (λ e. absurd (omega (arith, e)))

download-linked_example :
    ((h : Header)
      → get_elem? (download crypto local_params answers (new_headers [])).db 0 ≡ some h
      → crypto.block_hash h ≡ 7)
    × ((i : ℕ) (a b : Header)
        → get_elem? (download crypto local_params answers (new_headers [])).db i ≡ some a
        → get_elem? (download crypto local_params answers (new_headers [])).db (suc i) ≡ some b
        → b.prev_block ≡ crypto.block_hash a)
download-linked_example = download-linked crypto local_params answers

can_connect-Connects_example : Connects crypto main_params chain 3 (header_of 10 11 190 2000)
unfolding program
can_connect-Connects_example =
    can_connect-Connects crypto main_params chain 3 (header_of 10 11 190 2000) refl

fix_trailing_zeroes_headers_lem_example :
    (count : ℕ) × (fix_trailing_zeroes_headers (chain ++ zero_header ∷ [])
      ≡ ok (take count (chain ++ zero_header ∷ [])))
    × IsFixed (chain ++ zero_header ∷ []) count
fix_trailing_zeroes_headers_lem_example =
    fix_trailing_zeroes_headers_lem (chain ++ zero_header ∷ [])

-- A network in which every header is the same one, with the checkpoint's hash as its own.
abbrev checkpoint_hash : ℕ
checkpoint_hash = 0x00000000a2aa46899e5eda73c816b55903799a4feb321c903d9baeacc9443925

abbrev constant_header : Header
constant_header = header_of checkpoint_hash checkpoint_hash 100 1000

abbrev test_params : Params
test_params = record local_params { net = test_net3; genesis_hash = checkpoint_hash }

repeat : ℕ → List Header
repeat zero = []
repeat (suc n) = constant_header ∷ repeat n

length-repeat : (n : ℕ) → length (repeat n) ≡ n
unfolding repeat
length-repeat zero = refl
length-repeat (suc n) = ap suc (length-repeat n)

get_elem?-repeat : (n i : ℕ) (h : Header) → get_elem? (repeat n) i ≡ some h → h ≡ constant_header
unfolding repeat
get_elem?-repeat zero i h e = cc
get_elem?-repeat (suc n) zero h e = cc
get_elem?-repeat (suc n) (suc i) h e = get_elem?-repeat n i h e

header_by_height-repeat : (n i : ℕ) → i < n → header_by_height (repeat n) i ≡ some constant_header
unfolding repeat header_by_height read size is_zero
header_by_height-repeat zero i h = absurd (omega arith)
header_by_height-repeat (suc n) zero h = ground arith
header_by_height-repeat (suc n) (suc i) h =
    ground (arith, header_by_height-repeat n i (omega arith))

Connects-repeat :
    (n i : ℕ) → suc i < n → Connects crypto test_params (take (suc i) (repeat n)) i constant_header
unfolding checks_work checkpoint
Connects-repeat n i h = record {
  previous = constant_header;
  found =
      (kept_slots (suc i) (repeat n) i).0 (omega arith) ∙ header_by_height-repeat n i (omega arith);
  linked = refl;
  checkpointed = λ c e k. sym (checkpoint-hash c e);
  worked = λ e. cc;
}
  where
    checkpoint-hash : (c : Checkpoint) → checkpoint test_net3 ≡ some c → c.hash ≡ checkpoint_hash
    checkpoint-hash c e = ground arith

IsChain-repeat : (n : ℕ) → IsChain crypto test_params (repeat n)
IsChain-repeat n = record {
  genesis = λ h e. ap crypto.block_hash (get_elem?-repeat n 0 h e);
  connects = λ i h e.
      (let same : constant_header ≡ h = sym (get_elem?-repeat n (suc i) h e) in
        subst (Connects crypto test_params (take (suc i) (repeat n)) i) same (
          Connects-repeat n i (omega (arith, get_elem?-lt (repeat n) (suc i) e, length-repeat n))));
}

abbrev long : Headers
long = record (new_headers []) { db = repeat 1723300 }

abbrev test_checkpoint : Checkpoint
test_checkpoint = record { height = 1723210; hash = checkpoint_hash }

verified_header : verified_header_by_height test_params long 1723250 ≡ some constant_header
unfolding verified_header_by_height size checkpoint
verified_header =
    let high : ltb (size (repeat 1723300)) 1723211 ≡ false =
      le→ltb _ 1723211 (omega (arith, length-repeat 1723300)) in
    rw (high, verified_header_by_height) (header_by_height-repeat 1723300 1723250 (omega arith))
