-- ===== src/Flow/Chunk.antt =====
-- What the system contract sends for a chunk (contracts/eosio.system/src/actions/4.tokenomics.cpp:
-- onchunk) leaves the bank with what it owes.
use twig_system_contracts.Prelude.{
  ℕ, Option, some, List, ◌++◌, ℤ, ltb, ◌≡◌, ◌≢◌, Bool-cases, inl, inr, if_true, if_false, subst,
  arith, pos, pos_part, ◌<◌, ◌^◌, lookup,
}
use twig_system_contracts.Chain.{
  MultiIndex, Table, AssetLib, NameLib, Env, ok, >>=-eq-ok, ok-injective, or_fail, no_singleton,
  end_iterator, Send,
}
use twig_system_contracts.Token.State.{Tables, Account, Supplies, twig_symbol}
use twig_system_contracts.Token.Amounts.{FromZero}
use twig_system_contracts.Token.Effects.{IsSupplied}
use twig_system_contracts.System.State.{LuckyNumber, chunks_account, token_account}
use twig_system_contracts.System.Config.{eosio_account}
use twig_system_contracts.System.Lucky.{
  Shares, onchunk, onchunk-eq-ok, weighed, chunk_tokens, share_out, lucky_number_chunk_weight,
}
use twig_system_contracts.Token.Ledger.{IsSound, Backs}
use twig_system_contracts.Bank.State.{Double, Ieee}
use twig_system_contracts.Flow.Delivery.{World, run_by, onchunk_all}
use twig_system_contracts.Flow.Solvent.{Covers}
use twig_system_contracts.Flow.Others.{AllOthers, others-Covers}

-- The weight of a chunk is below one, so that what is issued of an amount in range is in range.
pub record IsSmall (shares : Shares) : Type 0 where
  pub small :
      (n v : ℤ)
      → FromZero n
      → weighed shares n (lucky_number_chunk_weight shares) ≡ ok v
      → pos_part v < 2 ^ 62

-- The supplies that are stored, if any are, are in order.
abbrev pub AllSupplied : Option Supplies → Type 0
AllSupplied stored = (x : Supplies) → stored ≡ some x → IsSupplied x

chunk_tokens-AllOthers :
    (shares : Shares) (bank epoch : ℕ) (balance : ℤ) (stored : Option Supplies)
    (tokens : ℤ × List Send) (sends : List Send)
    → IsSmall shares
    → AllSupplied stored
    → bank ≢ token_account
    → AllOthers bank sends
    → chunk_tokens shares epoch balance stored ≡ ok tokens
    → AllOthers bank (tokens.1 ++ sends)
chunk_tokens-AllOthers shares bank epoch balance stored tokens sends sm sup ne all h =
    elim (Bool-cases (ltb epoch 21)) [
      | inl early ↦
          let g = if_true _ _ early h in
          let (supplies, es, g) = >>=-eq-ok (or_fail stored no_singleton) _ g in
          let (most, em, g) =
            >>=-eq-ok (or_fail (lookup twig_symbol supplies.max_supply) end_iterator) _ g in
          let (issued, ei, g) =
            >>=-eq-ok (weighed shares most (lucky_number_chunk_weight shares)) _ g in
          let there : stored ≡ some supplies = ground arith in
          let found : lookup twig_symbol supplies.max_supply ≡ some most = ground arith in
          let range : FromZero most = rw found at ((sup supplies there).limited twig_symbol) in
          subst (λ (t : ℤ × List Send). AllOthers bank (t.1 ++ sends)) (ok-injective g)
            (ne, (sm.small most issued range ei, tt), all)
      | inr late ↦
          subst (λ (t : ℤ × List Send). AllOthers bank (t.1 ++ sends))
            (ok-injective (if_false _ _ late h)) all
    ]

share_out-AllOthers :
    (bank : ℕ) (team board producer world : ℤ)
    → bank ≢ chunks_account
    → AllOthers bank (share_out team board producer world)
share_out-AllOthers bank team board producer world ne = (ne, tt, (ne, tt, (ne, tt, (ne, tt, tt))))

module _ ⦃mi : MultiIndex⦄ ⦃lib : AssetLib⦄ (shares : Shares) where
  -- All that is sent for a chunk is sent by others than the bank, and what is issued is in range.
  onchunk-AllOthers :
      (bank : ℕ) (e : Env) (stored : Option LuckyNumber) (accounts : Table Account)
      (supplies : Option Supplies) (sends : List Send)
      → IsSmall shares
      → AllSupplied supplies
      → bank ≢ token_account
      → bank ≢ chunks_account
      → onchunk shares e stored accounts supplies ≡ ok sends
      → AllOthers bank sends
  onchunk-AllOthers bank e stored accounts supplies sends sm sup token chunks h =
      let (lucky, balance, tokens, out, _, told, made) =
        onchunk-eq-ok shares e stored accounts supplies sends h in
      let shared = share_out out.0.0 out.0.1 out.1 out.2 in
      rw made (
        chunk_tokens-AllOthers shares bank lucky.epoch balance supplies tokens shared sm sup token
          (share_out-AllOthers bank out.0.0 out.0.1 out.1 out.2 chunks) told)

module _ ⦃mi : MultiIndex⦄ ⦃lib : AssetLib⦄ ⦃names : NameLib⦄ (double : Double) (bank : ℕ) where
  -- A sound ledger has its supplies in order.
  sound-AllSupplied : (st : Tables) → IsSound st → AllSupplied st.supplies
  sound-AllSupplied st sound x e = let b : Backs x st.accounts = rw e at sound in b.supplied

  pub onchunk_all-Covers :
      (shares : Shares) (depth : ℕ) (e : Env) (lucky : Option LuckyNumber) (w w' : World)
      → Ieee double
      → IsSmall shares
      → bank ≢ token_account
      → bank ≢ chunks_account
      → Covers bank (pos 0) w
      → onchunk_all double bank shares depth e lucky w ≡ ok w'
      → Covers bank (pos 0) w'
  unfolding onchunk_all
  onchunk_all-Covers shares depth e lucky w w' ieee sm token chunks c h =
      let s = run_by eosio_account e in
      let (sends, es, h1) =
        >>=-eq-ok (onchunk shares s lucky w.ledger.accounts w.ledger.supplies) _ h in
      let all =
        onchunk-AllOthers shares bank s lucky w.ledger.accounts w.ledger.supplies sends sm
          (sound-AllSupplied w.ledger c.sound) token chunks es in
      others-Covers double bank depth e lucky sends w w' ieee all c h1
