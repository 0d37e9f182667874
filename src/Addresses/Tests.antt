-- ===== src/Addresses/Tests.antt =====
-- A chain with a gap limit of three.
use bitbox_wallet_app.Prelude.{
  ℕ, ◌+◌, ◌*◌, ◌≤◌, ◌≡◌, ◌⊎◌, refl, Bool, List, [], ◌∷◌, ◌++◌, Option, none, some, length, ltb, All,
}
use bitbox_wallet_app.Prelude.Assoc.{find, put}
use bitbox_wallet_app.Prelude.Run.{ok, err}
use bitbox_wallet_app.Addresses.{
  AddressChain, not_synced, is_used_failed, new_address_chain, lookup_by_script_hash_hex, ask,
  tail_loop, unused_tail_count, get_unused, next_address, add_address, add_addresses,
  ensure_addresses,
}
use bitbox_wallet_app.Addresses.Gap.{IsUnused, ensure_addresses-get_unused}

program : Unit {0}
unfolding find put new_address_chain lookup_by_script_hash_hex ask tail_loop unused_tail_count
    get_unused next_address add_address add_addresses ensure_addresses
program = tt

abbrev derive : ℕ → ℕ → ℕ
derive chain_index index = 100 * chain_index + index

abbrev script_hash : ℕ → ℕ
script_hash a = a + 1000

-- The first two addresses are used.
abbrev is_used : ℕ → Option Bool
is_used a = some (ltb a 102)

abbrev chain : AddressChain ℕ
chain = record {
  gap_limit = 3;
  chain_index = 1;
  addresses = 100 ∷ 101 ∷ 102 ∷ [];
  addresses_lookup = [];
}

unsynced_run : get_unused is_used chain ≡ err not_synced
unfolding program
unsynced_run = refl

failed_run : get_unused (λ a. none) chain ≡ err is_used_failed
unfolding program
failed_run = refl

abbrev synced : AddressChain ℕ
synced = record chain {
  addresses = 100 ∷ 101 ∷ 102 ∷ 103 ∷ 104 ∷ [];
  addresses_lookup = (1103, 103) ∷ (1104, 104) ∷ [];
}

ensure_run : ensure_addresses derive script_hash is_used chain ≡ ok (synced, 103 ∷ 104 ∷ [])
unfolding program
ensure_run = refl

lookup_run : lookup_by_script_hash_hex 1104 synced ≡ some 104
unfolding program
lookup_run = refl

ensure_addresses-get_unused_example :
    (synced.addresses ≡ chain.addresses ++ 103 ∷ 104 ∷ [])
    × ((All (IsUnused is_used) (103 ∷ 104 ∷ []) → ⊥)
        ⊎ ((unused : List ℕ) × (get_unused is_used synced ≡ ok unused)
            × (3 ≤ length unused)
            × All (IsUnused is_used) unused))
unfolding program
ensure_addresses-get_unused_example =
    ensure_addresses-get_unused is_used derive script_hash chain synced (103 ∷ 104 ∷ []) refl
