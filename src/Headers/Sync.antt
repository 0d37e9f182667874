-- ===== src/Headers/Sync.antt =====
-- backend/coins/btc/headers/headers.go: Headers, its batches and its events.
-- A height `tip` of the code is -1 before the first header; the model passes `tip + 1`, the number of
-- headers. The lock and the channels serialise the calls: a call is one step on the state, and the
-- kick channel, which holds one element at most, is a Boolean. A notification, a goroutine in the
-- code, is an entry of `delivered`. The answers of the server are arguments.
pub mod Batch
pub mod Chain
pub mod Links
pub mod Reorg
use bitbox_wallet_app.Prelude.{
  ℕ, zero, suc, ◌+◌, ◌-◌, Bool, true, false, List, [], ◌∷◌, ◌++◌, Option, none, some, length, ltb,
  ◌==◌, if◌then◌else◌, map,
}
use bitbox_wallet_app.Prelude.Run.{Run, ok, err, panic, out_of_fuel}
use bitbox_wallet_app.Headers.Db
use bitbox_wallet_app.Headers.Db.{Header, size, header_by_height, put_header, revert_to}
use bitbox_wallet_app.Headers.Net.{Params, Checkpoint, checkpoint}
use bitbox_wallet_app.Headers.Target.{Error, prev_hash, not_found}
use bitbox_wallet_app.Headers.Connect.{Crypto, can_connect}

pub data Event : Type 0 where
  syncing synced new_tip : Event

-- A callback is a number; an unsubscribed one is nil.
pub record Headers : Type 0 where
  pub db : List Header
  pub headers_per_batch : ℕ
  pub target_height : ℕ
  pub tip_at_init_time : ℕ
  pub kicked : Bool
  pub event_callbacks : List (Option ℕ)
  pub delivered : List (ℕ × Event)
  pub closed : Bool

unfoldable pub new_headers : List Header → Headers
new_headers db = record {
  db = db;
  headers_per_batch = 10;
  target_height = 0;
  tip_at_init_time = 1;
  kicked = false;
  event_callbacks = [];
  delivered = [];
  closed = false;
}

abbrev pub reorg_limit : ℕ
reorg_limit = 100

unfoldable pub kick : Headers → Headers
kick s = record s { kicked = true }

-- The callbacks that are not nil, in order.
unfoldable pub deliveries : Event → List (Option ℕ) → List (ℕ × Event)
deliveries event [] = []
deliveries event (none ∷ fs) = deliveries event fs
deliveries event (some f ∷ fs) = (f, event) ∷ deliveries event fs

unfoldable pub notify_event : Event → Headers → Headers
unfolding deliveries
notify_event event s = record s { delivered = s.delivered ++ deliveries event s.event_callbacks }

-- The callback and its index, which the returned function keeps.
unfoldable pub subscribe_event : ℕ → Headers → Headers × ℕ
subscribe_event f s =
    (record s { event_callbacks = s.event_callbacks ++ some f ∷ [] }, length s.event_callbacks)

unfoldable pub clear_at : ℕ → List (Option ℕ) → List (Option ℕ)
clear_at i [] = []
clear_at zero (f ∷ fs) = none ∷ fs
clear_at (suc i) (f ∷ fs) = f ∷ clear_at i fs

unfoldable pub unsubscribe : ℕ → Headers → Headers
unfolding clear_at
unsubscribe index s = record s { event_callbacks = clear_at index s.event_callbacks }

unfoldable pub update : ℕ → Headers → Headers
update block_height s = notify_event new_tip (record (kick s) { target_height = block_height })

unfoldable pub tip_height : Headers → ℕ
tip_height s = s.target_height

unfoldable pub initialize : Headers → Headers
initialize s = kick (record s { tip_at_init_time = size s.db })

-- newTip < -1 is the case that `size` is below the limit.
unfoldable pub reorg_size : ℕ → ℕ
reorg_size size = if ltb size reorg_limit then 0 else size - reorg_limit

-- A revert that goes forward panics.
unfoldable pub reorg : ℕ → Headers → Headers × Run Error (Unit {0})
unfolding reorg_size
reorg size s = elim (revert_to (reorg_size size) s.db) [
  | ok db ↦ (kick (record s { db = db }), ok tt)
  | _ ↦ (s, panic)
]

unfoldable pub min : ℕ → ℕ → ℕ
min a b = if ltb a b then a else b

-- The loop of processBatch ended at its end, or it returned.
pub data Progress : Type 0 where
  connected : Progress
  reorged : Run Error (Unit {0}) → Progress
  failed : Run Error (Unit {0}) → Progress

-- What follows the loop. Flush changes nothing that is read.
unfoldable pub finish_batch : Headers → ℕ → ℕ → Headers
finish_batch s count max =
    let s' =
      if count == min max s.headers_per_batch
      then notify_event syncing (kick s)
      else (if count == 0 then s else notify_event synced s) in
    record s' { headers_per_batch = max }

unfoldable pub conclude_batch : ℕ → ℕ → Headers × Progress → Headers × Run Error (Unit {0})
conclude_batch count max (s, connected) = (finish_batch s count max, ok tt)
conclude_batch count max (s, reorged r) = (s, r)
conclude_batch count max (s, failed r) = (s, r)

module _ (crypto : Crypto) (params : Params) where
  unfoldable pub connect_all : Headers → ℕ → List Header → Headers × Progress
  connect_all s size [] = (s, connected)
  connect_all s size (header ∷ headers) = elim (can_connect crypto params s.db size header) [
    | ok _ ↦ connect_all (record s { db = put_header size header s.db }) (size + 1) headers
    | err prev_hash ↦ (let (s', r) = reorg size s in (s', reorged r))
    | err e ↦ (s, failed (err e))
    | panic ↦ (s, failed panic)
    | out_of_fuel ↦ (s, failed out_of_fuel)
  ]

  unfoldable pub process_batch : Headers → ℕ → List Header → ℕ → Headers × Run Error (Unit {0})
  unfolding conclude_batch
  process_batch s size headers max =
      conclude_batch (length headers) max (connect_all s size headers)

  -- One round of the download loop, for a kick: it drains the channel. The server's answer to the
  -- request for the headers from the tip on is none, for an error, or the headers and the maximum.
  unfoldable pub download_and_process_batch :
      Option (List Header × ℕ) → Headers → Headers × Run Error (Unit {0})
  download_and_process_batch answer s =
      let s' = record s { kicked = false } in
      if s.closed then (s', ok tt) else elim answer [
        | none ↦ (s', ok tt)
        | some (headers, max) ↦ process_batch s' (size s'.db) headers max
      ]

  -- The loop of `download`, for the server's answers in turn.
  unfoldable pub download : List (Option (List Header × ℕ)) → Headers → Headers
  download [] s = s
  download (answer ∷ answers) s = download answers (download_and_process_batch answer s).0

-- Nil below the checkpoint and above the tip.
unfoldable pub verified_header_by_height : Params → Headers → ℕ → Option Header
verified_header_by_height params s height = elim (checkpoint params.net) [
  | none ↦ header_by_height s.db height
  | some c ↦ if ltb (size s.db) (c.height + 1) then none else header_by_height s.db height
]

pub record Status : Type 0 where
  pub tip_at_init_time : ℕ
  pub tip : ℕ
  pub tip_hash_hex : ℕ
  pub target_height : ℕ

-- `tip_at_init_time` and `tip` are one more than in the code. Without a header at the tip it fails.
unfoldable pub status : Crypto → Headers → Run Error Status
status crypto s = elim (size s.db) [
  | zero ↦ err (not_found 0)
  | suc tip ↦ elim (header_by_height s.db tip) [
    | none ↦ err (not_found tip)
    | some header ↦ ok (record {
      tip_at_init_time = s.tip_at_init_time;
      tip = size s.db;
      tip_hash_hex = crypto.block_hash header;
      target_height = s.target_height;
    })
  ]
]

-- Closing the quit channel twice panics.
unfoldable pub close : Headers → Headers × Run Error (Unit {0})
close s = if s.closed then (s, panic) else (record s { closed = true }, ok tt)
