-- ===== src/Addresses.antt =====
-- backend/coins/btc/addresses/addresschain.go: the chain of an account's receive or change addresses.
-- NewAccountAddress, the script hash of an address, and the callback isAddressUsed, which may fail,
-- are parameters; the callback answers the same as long as the lock is held. The gap limit is not
-- negative.
pub mod Gap
mod Tests
use bitbox_wallet_app.Prelude.{
  ℕ, zero, suc, ◌+◌, ◌-◌, ◌^◌, ◌%◌, Bool, true, false, List, [], ◌∷◌, ◌++◌, Option, none, some,
  length, drop, ltb, if◌then◌else◌, ◌==◌,
}
use mathlib.Core.List.{reverse}
use bitbox_wallet_app.Prelude.Assoc.{find, put}
use bitbox_wallet_app.Prelude.Run.{Run, ok, err, ◌>>=◌}

pub data Error : Type 0 where
  is_used_failed not_synced : Error

pub record AddressChain (Address : Type 0) : Type 0 where
  pub gap_limit : ℕ
  pub chain_index : ℕ
  pub addresses : List Address
  pub addresses_lookup : List (ℕ × Address)

abbrev pub same_script_hash : ℕ → ℕ → Bool
same_script_hash a b = a == b

module _ {Address : Type 0} where
  unfoldable pub new_address_chain : ℕ → ℕ → AddressChain Address
  new_address_chain gap_limit chain_index = record {
    gap_limit = gap_limit;
    chain_index = chain_index;
    addresses = [];
    addresses_lookup = [];
  }

  unfoldable pub lookup_by_script_hash_hex : ℕ → AddressChain Address → Option Address
  lookup_by_script_hash_hex hash_hex c = find same_script_hash hash_hex c.addresses_lookup

  module _ (is_address_used : Address → Option Bool) where
    unfoldable pub ask : Option Bool → Run Error Bool
    ask none = err is_used_failed
    ask (some used) = ok used

    -- The loop, over the addresses from the last one on.
    unfoldable pub tail_loop : List Address → Run Error ℕ
    unfolding ask
    tail_loop [] = ok 0
    tail_loop (a ∷ as') = do
      used ← ask (is_address_used a)
      let rest = tail_loop as' >>= λ count. ok (suc count)
      if used then ok 0 else rest

    unfoldable pub unused_tail_count : AddressChain Address → Run Error ℕ
    unused_tail_count c = tail_loop (reverse c.addresses)

    unfoldable pub get_unused : AddressChain Address → Run Error (List Address)
    get_unused c = do
      count ← unused_tail_count c
      if ltb count c.gap_limit
          then err not_synced
          else ok (drop (length c.addresses - count) c.addresses)

  module _ (new_account_address : ℕ → ℕ → Address) (pubkey_script_hash_hex : Address → ℕ) where
    -- The index of an address is a uint32.
    unfoldable pub next_address : AddressChain Address → Address
    next_address c = new_account_address c.chain_index (length c.addresses % 2 ^ 32)

    unfoldable pub add_address : AddressChain Address → AddressChain Address
    unfolding next_address
    add_address c =
        let address = next_address c in
        record c {
          addresses = c.addresses ++ address ∷ [];
          addresses_lookup =
              put same_script_hash (pubkey_script_hash_hex address) address c.addresses_lookup;
        }

    -- The loop of EnsureAddresses, with the addresses added so far.
    unfoldable pub add_addresses :
        ℕ → AddressChain Address → List Address → AddressChain Address × List Address
    add_addresses zero c added = (c, added)
    add_addresses (suc n) c added = add_addresses n (add_address c) (added ++ next_address c ∷ [])

    unfoldable pub ensure_addresses :
        (Address → Option Bool)
        → AddressChain Address
        → Run Error (AddressChain Address × List Address)
    ensure_addresses is_address_used c = do
      unused_address_count ← unused_tail_count is_address_used c
      ok (add_addresses (c.gap_limit - unused_address_count) c [])
