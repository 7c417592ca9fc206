-- ===== src/System/Lucky/Chunks.antt =====
-- What a chunk pays (contracts/eosio.system/src/actions/4.tokenomics.cpp: onchunk).
use twig_system_contracts.Prelude.{
  ℕ, Option, none, some, List, [], ◌∷◌, ◌++◌, String, ℤ, pos, negsuc, add64, ltb, lookup,
  if◌then◌else◌,
}
use twig_system_contracts.Chain.{
  MultiIndex, Table, find, AssetLib, make_asset, Env, require_auth, Result, ok, message, or_fail,
  no_singleton, end_iterator, ◌>>=◌, ◌>>◌, Send, Call,
}
use twig_system_contracts.Token.State.{twig_symbol, Account, Supplies}
use twig_system_contracts.System.State.{
  LuckyNumber, lucky_number_chunks, token_account, chunks_account, world_account, bank_account,
  board_account,
}

-- The operations on `double` that the shares take; `decimal n d` is the literal of n / d.
pub record Shares : Type 1 where
  pub D : Type 0
  pub of_int : ℤ → D
  pub decimal : ℕ → ℕ → D
  pub minus : D → D → D
  pub times : D → D → D
  pub over : D → D → D
  -- a conversion that the machine may refuse
  pub to_int64 : D → Result ℤ

module _ (shares : Shares) where
  abbrev pub lucky_number_chunk_weight : shares.D
  lucky_number_chunk_weight =
      shares.over (shares.decimal 1 1)
        (shares.times (shares.of_int (pos lucky_number_chunks)) (shares.decimal 20 1))

  abbrev pub lucky_number_world_weight : shares.D
  lucky_number_world_weight = shares.decimal 975 1000

  abbrev pub lucky_number_world_weight_inverse : shares.D
  lucky_number_world_weight_inverse =
      shares.times (shares.minus lucky_number_world_weight (shares.of_int (pos 1)))
        (shares.of_int (negsuc 0))

  abbrev pub lucky_number_team_weight : shares.D
  lucky_number_team_weight = shares.times lucky_number_world_weight_inverse (shares.decimal 45 100)

  abbrev pub lucky_number_board_weight : shares.D
  lucky_number_board_weight = shares.times lucky_number_world_weight_inverse (shares.decimal 45 100)

  abbrev pub lucky_number_producer_weight : shares.D
  lucky_number_producer_weight =
      shares.times lucky_number_world_weight_inverse (shares.decimal 1 10)

  -- A part of an amount, cut to an integer.
  abbrev pub weighed : ℤ → shares.D → Result ℤ
  weighed amount weight = shares.to_int64 (shares.times (shares.of_int amount) weight)

-- A transfer of one amount from the account of the chunks.
abbrev pub pay_share : ℕ → ℤ → String → Send
pay_share to amount memo = record {
  actor = chunks_account;
  contract = token_account;
  call =
      Call.transfer chunks_account to (record { amount = amount; symbol = twig_symbol } ∷ []) memo;
}

-- The transfers of the four shares, in their order.
abbrev pub share_out : ℤ → ℤ → ℤ → ℤ → List Send
share_out team board producer world =
    pay_share bank_account team "team_share"
    ∷ pay_share board_account board "board_share"
    ∷ pay_share bank_account producer "producer_share"
    ∷ pay_share world_account world "Refilling World..."
    ∷ []

abbrev pub issue_chunk : ℤ → Send
issue_chunk amount = record {
  actor = token_account;
  contract = token_account;
  call =
      Call.issue chunks_account ((twig_symbol, amount) ∷ [])
        "A chunk has been found! Distributing rewards...";
}

-- What is shared out, and what is issued first: nothing from epoch 21 on.
abbrev pub chunk_tokens : Shares → ℕ → ℤ → Option Supplies → Result (ℤ × List Send)
chunk_tokens shares epoch balance stored =
    if ltb epoch 21
    then (do
      supplies ← or_fail stored no_singleton
      max_supply ← or_fail (lookup twig_symbol supplies.max_supply) end_iterator
      issued ← weighed shares max_supply (lucky_number_chunk_weight shares)
      ok (add64 balance issued, issue_chunk issued ∷ []))
    else ok (balance, [])

abbrev pub balance_in : Account → ℤ
balance_in row = elim (lookup twig_symbol row.balance) [ none ↦ pos 0 | some amount ↦ amount ]

module _ ⦃mi : MultiIndex⦄ ⦃lib : AssetLib⦄ (shares : Shares) where
  unfoldable pub onchunk :
      Env → Option LuckyNumber → Table Account → Option Supplies → Result (List Send)
  onchunk e stored accounts supplies = do
    require_auth e e.self
    lucky ← or_fail stored no_singleton
    make_asset (pos 0) twig_symbol >>= λ chunks_tokens. do
      chunks_balance ← or_fail (find chunks_account accounts) (message "chunks_account_missing")
      tokens ← chunk_tokens shares lucky.epoch (balance_in chunks_balance) supplies
      team ← weighed shares tokens.0 (lucky_number_team_weight shares)
      board ← weighed shares tokens.0 (lucky_number_board_weight shares)
      producer ← weighed shares tokens.0 (lucky_number_producer_weight shares)
      world ← weighed shares tokens.0 (lucky_number_world_weight shares)
      ok (tokens.1 ++ share_out team board producer world)
