-- ===== src/Token/Pairs.antt =====
-- The loops of twig.token over `fungible_pairs`, a map from symbols to `int64_t` amounts.
use twig_system_contracts.Prelude.{
  ℕ, none, some, List, [], ◌∷◌, ℤ, pos, add64, sub64, ltb_ℤ, leb_ℤ, eqb_ℤ, if◌then◌else◌, lookup,
  insert, remove,
}
use twig_system_contracts.Chain.{
  AssetLib, is_valid, make_asset, Asset, Result, ok, end_iterator, message, ◌>>=◌, ◌>>◌, check,
  or_fail, is_some, is_none, Pairs,
}
use twig_system_contracts.Token.State.{Supplies}

-- `if (find == end) emplace else second += v`
unfoldable pub credit : ℕ → ℤ → Pairs → Pairs
credit k v m = elim (lookup k m) [ none ↦ insert k v m | some old ↦ insert k (add64 old v) m ]

-- `second -= v`, with what is left, and an entry that has come to zero erased.
unfoldable pub settle : ℕ → ℤ → Pairs → Pairs
settle k left m = let m' = insert k left m in if eqb_ℤ left (pos 0) then remove k m' else m'

-- The body of the loop of `issue`.
unfoldable pub issue_one : ℕ → ℤ → Supplies → Pairs → Result (Supplies × Pairs)
unfolding credit
issue_one sym amount supplies balance = do
  current ← or_fail (lookup sym supplies.supply) (message "this fungible does not exist: ")
  limit ← or_fail (lookup sym supplies.max_supply) end_iterator
  check (ltb_ℤ (add64 current amount) limit) "cannot issue above fungible max supply: "
  check (ltb_ℤ (pos 0) amount) "cannot issue an amount below 0: "
  ok (
    record supplies { supply = insert sym (add64 current amount) supplies.supply },
    credit sym amount balance,
  )

unfoldable pub issue_loop : Pairs → Supplies → Pairs → Result (Supplies × Pairs)
issue_loop [] supplies balance = ok (supplies, balance)
issue_loop ((sym, amount) ∷ tokens) supplies balance =
    issue_one sym amount supplies balance >>= λ (s, b). issue_loop tokens s b

-- The body of the loop of `retire`.
unfoldable pub retire_one : ℕ → ℤ → Supplies → Pairs → Result (Supplies × Pairs)
unfolding settle
retire_one sym amount supplies balance = do
  current ← or_fail (lookup sym supplies.supply) (message "this fungible does not exist: ")
  check (leb_ℤ (pos 0) (sub64 current amount)) "cannot retire below zero: "
  check (ltb_ℤ (pos 0) amount) "cannot retire an amount below 0: "
  held ← or_fail (lookup sym balance) (message "owner does not have any of this fungible: ")
  check (leb_ℤ (pos 0) (sub64 held amount)) "owner does not have enough of this fungible: "
  ok (
    record supplies { supply = insert sym (sub64 current amount) supplies.supply },
    settle sym (sub64 held amount) balance,
  )

unfoldable pub retire_loop : Pairs → Supplies → Pairs → Result (Supplies × Pairs)
retire_loop [] supplies balance = ok (supplies, balance)
retire_loop ((sym, amount) ∷ tokens) supplies balance =
    retire_one sym amount supplies balance >>= λ (s, b). retire_loop tokens s b

module _ ⦃lib : AssetLib⦄ where
  -- The body of the loop of `transfer`, on the two balances.
  unfoldable pub transfer_one : Asset → Pairs → Pairs → Result (Pairs × Pairs)
  unfolding settle credit
  transfer_one a from_balance to_balance = do
    check (is_valid a) "invalid quantity: "
    check (ltb_ℤ (pos 0) a.amount) "must transfer positive quantity: "
    held ← or_fail (lookup a.symbol from_balance) (message "owner does not have this fungible: ")
    check (leb_ℤ (pos 0) (sub64 held a.amount)) "owner does not have enough of this fungible: "
    ok (settle a.symbol (sub64 held a.amount) from_balance, credit a.symbol a.amount to_balance)

  unfoldable pub transfer_loop : List Asset → Pairs → Pairs → Result (Pairs × Pairs)
  transfer_loop [] from_balance to_balance = ok (from_balance, to_balance)
  transfer_loop (a ∷ tokens) from_balance to_balance =
      transfer_one a from_balance to_balance >>= λ (f, t). transfer_loop tokens f t

  -- The body of the loop of `setsupplies`; `emplace` leaves an entry that is there.
  unfoldable pub set_supply_one : ℕ → ℤ → Supplies → Result Supplies
  set_supply_one sym amount supplies = do
    check (is_none (lookup sym supplies.max_supply)) "this fungible already exists: "
    asset ← make_asset amount sym
    check (is_valid asset) "invalid supply"
    check (ltb_ℤ (pos 0) asset.amount) "max-supply must be positive"
    ok (record {
      supply =
          if is_none (lookup sym supplies.supply)
          then insert sym (pos 0) supplies.supply
          else supplies.supply;
      max_supply = insert sym amount supplies.max_supply;
    })

  unfoldable pub set_supply_loop : Pairs → Supplies → Result Supplies
  set_supply_loop [] supplies = ok supplies
  set_supply_loop ((sym, amount) ∷ rest) supplies =
      set_supply_one sym amount supplies >>= λ s. set_supply_loop rest s

-- The body of the loop of `rmvsupply`.
unfoldable pub remove_supply_one : ℕ → Supplies → Result Supplies
remove_supply_one sym supplies = do
  check (is_some (lookup sym supplies.max_supply)) "this fungible doesn't exist: "
  current ← or_fail (lookup sym supplies.supply) end_iterator
  check (eqb_ℤ current (pos 0)) "this fungible has a non-zero supply: "
  ok (record { supply = remove sym supplies.supply; max_supply = remove sym supplies.max_supply })

unfoldable pub remove_supply_loop : Pairs → Supplies → Result Supplies
remove_supply_loop [] supplies = ok supplies
remove_supply_loop ((sym, amount) ∷ rest) supplies =
    remove_supply_one sym supplies >>= λ s. remove_supply_loop rest s
