-- ===== src/Maketx/Selection.antt =====
-- backend/coins/btc/maketx/maketx.go: byValue and coinSelection.
-- The map `outputs` is the list of its entries in the order of the iteration, and `outputs[p]` for a
-- key of it is the entry's value. chainhash.HashH(..).String() is a parameter. sort.Sort is an
-- insertion sort: entries that `less` does not tell apart may come in another order, with the
-- same values.
pub mod Sorted
pub mod Total
pub mod Enough
use bitbox_wallet_app.Prelude.{ℕ, Bool, true, false, List, [], ◌∷◌, ◌++◌, ltb, ◌==◌, if◌then◌else◌}
use bitbox_wallet_app.Prelude.Int64.{Int64, add, lt, le}
use bitbox_wallet_app.Prelude.Run.{Run, ok, err}
use bitbox_wallet_app.Maketx.Types.{Coin, Error, insufficient_funds}

abbrev pub value : Coin → Int64
value c = c.utxo.tx_out.value

-- Go's `<` on strings, here lists of bytes.
unfoldable pub str_less : List ℕ → List ℕ → Bool
str_less [] [] = false
str_less [] (b ∷ bs) = true
str_less (a ∷ as') [] = false
str_less (a ∷ as') (b ∷ bs) = if ltb a b then true else if a == b then str_less as' bs else false

module _ (hash_string : List ℕ → List ℕ) where
  unfoldable pub less : Coin → Coin → Bool
  less a b =
      if value a == value b
      then str_less (hash_string a.utxo.tx_out.pk_script) (hash_string b.utxo.tx_out.pk_script)
      else lt (value a) (value b)

  -- sort.Reverse: the largest first.
  unfoldable pub insert : Coin → List Coin → List Coin
  insert c [] = c ∷ []
  insert c (d ∷ ds) = if less c d then d ∷ insert c ds else c ∷ d ∷ ds

  unfoldable pub sort_reverse : List Coin → List Coin
  sort_reverse [] = []
  sort_reverse (c ∷ cs) = insert c (sort_reverse cs)

-- The loop, with the sum and the selection so far.
unfoldable pub select_loop : Int64 → List Coin → Int64 → List Coin → Int64 × List Coin
select_loop min_amount [] sum selected = (sum, selected)
select_loop min_amount (c ∷ cs) sum selected =
    if le min_amount sum
    then (sum, selected)
    else select_loop min_amount cs (add sum (value c)) (selected ++ c ∷ [])

unfoldable pub coin_selection :
    (List ℕ → List ℕ) → Int64 → List Coin → Run Error (Int64 × List Coin)
coin_selection hash_string min_amount outputs =
    let (sum, selected) = select_loop min_amount (sort_reverse hash_string outputs) 0 [] in
    if lt sum min_amount then err insufficient_funds else ok (sum, selected)
