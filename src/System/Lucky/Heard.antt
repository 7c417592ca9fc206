-- ===== src/System/Lucky/Heard.antt =====
-- What eosio.bank makes of the transfers of a chunk (contracts/eosio.system/src/actions/
-- 4.tokenomics.cpp: onchunk; contracts/eosio.bank/src/eosio.bank.cpp: token_deposit).
use twig_system_contracts.Prelude.{
  ℕ, Option, some, List, [], ◌∷◌, ◌++◌, ℤ, ltb, if◌then◌else◌, ◌≡◌, refl, sym, ◌∙◌, Bool-cases, inl,
  inr, if_true, if_false, subst, arith, pos, ◌+◌, lookup,
}
use twig_system_contracts.Chain.{
  MultiIndex, Table, find, AssetLib, make_asset, Env, require_auth, ok, >>=-eq-ok, ok-injective,
  or_fail, no_singleton, end_iterator, Send, Call,
}
use twig_system_contracts.Token.State.{Account, Supplies, twig_symbol}
use twig_system_contracts.Bank.Actions.{is_ignored, payee}
use twig_system_contracts.Bank.State.{team_account}
use twig_system_contracts.System.State.{LuckyNumber, bank_account, chunks_account}
use twig_system_contracts.System.Lucky.Chunks.{
  Shares, onchunk, weighed, chunk_tokens, share_out, balance_in, lucky_number_team_weight,
  lucky_number_board_weight, lucky_number_producer_weight, lucky_number_world_weight,
  lucky_number_chunk_weight,
}

-- Whom the bank books the transfers of a list for that it does not ignore.
abbrev pub payees : Env → LuckyNumber → List Send → List ℕ
payees bank lucky [] = []
payees bank lucky (send ∷ sends) =
    let rest = payees bank lucky sends in
    elim send.call [
      | Call.transfer from to tokens memo ↦
          if is_ignored bank from to tokens memo then rest else payee memo lucky ∷ rest
      | _ ↦ rest
    ]

payees-share_out :
    (bank : Env) (lucky : LuckyNumber) (team board producer world : ℤ)
    → bank.self ≡ bank_account
    → payees bank lucky (share_out team board producer world) ≡ team_account ∷ lucky.producer ∷ []
payees-share_out bank lucky team board producer world here = rw here refl

-- How many of the sends issue tokens.
abbrev pub issues : List Send → ℕ
issues [] = 0
issues (send ∷ sends) =
    let rest = issues sends in elim send.call [ Call.issue owner tokens memo ↦ rest + 1 | _ ↦ rest ]

chunk_tokens-payees :
    (shares : Shares) (bank : Env) (lucky : LuckyNumber) (balance : ℤ) (stored : Option Supplies)
    (tokens : ℤ × List Send) (sends : List Send)
    → chunk_tokens shares lucky.epoch balance stored ≡ ok tokens
    → (payees bank lucky (tokens.1 ++ sends) ≡ payees bank lucky sends)
      × (issues (tokens.1 ++ sends) ≡ issues sends + (if ltb lucky.epoch 21 then 1 else 0))
chunk_tokens-payees shares bank lucky balance stored tokens sends h =
    elim (Bool-cases (ltb lucky.epoch 21)) [
      | inl early ↦
          let g = if_true _ _ early h in
          let (supplies, _, g) = >>=-eq-ok (or_fail stored no_singleton) _ g in
          let (most, _, g) =
            >>=-eq-ok (or_fail (lookup twig_symbol supplies.max_supply) end_iterator) _ g in
          let (issued, _, g) =
            >>=-eq-ok (weighed shares most (lucky_number_chunk_weight shares)) _ g in
          rw early (
            subst
              (λ t.
                (payees bank lucky (t.1 ++ sends) ≡ payees bank lucky sends)
                × (issues (t.1 ++ sends) ≡ issues sends + 1))
              (ok-injective g) (refl, refl))
      | inr late ↦ rw late (
          subst
            (λ t.
              (payees bank lucky (t.1 ++ sends) ≡ payees bank lucky sends)
              × (issues (t.1 ++ sends) ≡ issues sends + 0))
            (ok-injective (if_false _ _ late h)) (refl, omega arith))
    ]

module _ ⦃mi : MultiIndex⦄ ⦃lib : AssetLib⦄ (shares : Shares) where
  -- What a chunk that goes through has read, and how what it sends is made up.
  pub onchunk-eq-ok :
      (e : Env) (stored : Option LuckyNumber) (accounts : Table Account)
      (supplies : Option Supplies) (sends : List Send)
      → onchunk shares e stored accounts supplies ≡ ok sends
      → (lucky : LuckyNumber) × (balance : ℤ) × (tokens : ℤ × List Send) × (out : (ℤ × ℤ) × ℤ × ℤ)
        × (stored ≡ some lucky)
        × (chunk_tokens shares lucky.epoch balance supplies ≡ ok tokens)
        × (sends ≡ tokens.1 ++ share_out out.0.0 out.0.1 out.1 out.2)
  unfolding onchunk
  onchunk-eq-ok e stored accounts supplies sends h =
      let (_, _, h) = >>=-eq-ok (require_auth e e.self) _ h in
      let (lucky, el, h) = >>=-eq-ok (or_fail stored no_singleton) _ h in
      let (_, _, h) = >>=-eq-ok (make_asset (pos 0) twig_symbol) _ h in
      let (row, _, h) = >>=-eq-ok (or_fail (find chunks_account accounts) _) _ h in
      let (tokens, told, h) =
        >>=-eq-ok (chunk_tokens shares lucky.epoch (balance_in row) supplies) _ h in
      let (team, _, h) =
        >>=-eq-ok (weighed shares tokens.0 (lucky_number_team_weight shares)) _ h in
      let (board, _, h) =
        >>=-eq-ok (weighed shares tokens.0 (lucky_number_board_weight shares)) _ h in
      let (producer, _, h) =
        >>=-eq-ok (weighed shares tokens.0 (lucky_number_producer_weight shares)) _ h in
      let (world, _, h) =
        >>=-eq-ok (weighed shares tokens.0 (lucky_number_world_weight shares)) _ h in
      (
        lucky,
        balance_in row,
        tokens,
        ((team, board), producer, world),
        ground arith,
        told,
        sym (ok-injective h),
      )

  -- A chunk that goes through issues tokens once up to epoch 20 and never after that, and of its
  -- transfers the bank books exactly two, the first for the team and the second for the producer
  -- of the lucky block; the bank ignores no share that is meant for it.
  pub onchunk-payees :
      (e bank : Env) (lucky : LuckyNumber) (accounts : Table Account) (supplies : Option Supplies)
      (sends : List Send)
      → bank.self ≡ bank_account
      → onchunk shares e (some lucky) accounts supplies ≡ ok sends
      → (payees bank lucky sends ≡ team_account ∷ lucky.producer ∷ [])
        × (issues sends ≡ (if ltb lucky.epoch 21 then 1 else 0))
  onchunk-payees e bank lucky accounts supplies sends here h =
      let (found, balance, tokens, out, same, told, made) =
        onchunk-eq-ok e (some lucky) accounts supplies sends h in
      let now : found ≡ lucky = cc in
      let told' : chunk_tokens shares lucky.epoch balance supplies ≡ ok tokens = rw now at told in
      let shared = share_out out.0.0 out.0.1 out.1 out.2 in
      let (heard, issued) =
        chunk_tokens-payees shares bank lucky balance supplies tokens shared told' in
      rw made
        (heard ∙ payees-share_out bank lucky out.0.0 out.0.1 out.1 out.2 here, issued ∙ omega arith)
