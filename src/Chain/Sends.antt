-- ===== src/Chain/Sends.antt =====
-- The inline actions that the contracts send. Each is sent under the `active` permission of one
-- account. Amounts and memos are as packed.
use twig_system_contracts.Prelude.{ℕ, List, String}
use twig_system_contracts.Chain.Types.{Asset, Pairs}

pub data Call : Type 0 where
  -- `issue(owner, tokens, memo)` of the token contract
  issue : ℕ → Pairs → String → Call
  -- `transfer(from, to, tokens, memo)` of the token contract, with a vector of assets
  transfer : ℕ → ℕ → List Asset → String → Call
  -- the same action, but packed with one asset in place of the vector
  transfer_one : ℕ → ℕ → Asset → String → Call
  -- `onchunk()` of the system contract
  onchunk : Call
  -- `onepoch(epoch)` of the bank
  onepoch : ℕ → Call
  -- an action by its name, with a 256-bit seed for argument
  with_seed : ℕ → List ℕ → Call
  -- an action that was read from a packed transaction, by its place there
  unpacked : ℕ → Call

pub record Send : Type 0 where
  pub actor : ℕ
  pub contract : ℕ
  pub call : Call
