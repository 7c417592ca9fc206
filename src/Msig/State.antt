-- ===== src/Msig/State.antt =====
-- The tables of eosio.msig (contracts/eosio.msig/include/eosio.msig.hpp), and what the contract
-- takes from the chain: how a packed transaction is read, and which approvals authorize it.
use twig_system_contracts.Prelude.{ℕ, Bool, Option, List, ◌==◌, ◌&&◌}
use twig_system_contracts.Chain.{MultiIndex, Table, Env, Result}

-- permission_level
pub record Level : Type 0 where
  pub actor : ℕ
  pub permission : ℕ

abbrev pub eq_level : Level → Level → Bool
eq_level a b = a.actor == b.actor && a.permission == b.permission

-- The bytes of a packed transaction.
abbrev pub Bytes : Type 0
Bytes = List ℕ

-- What the contract reads of a transaction's header. Both are in seconds.
pub record Header : Type 0 where
  pub expiration : ℕ
  pub delay_sec : ℕ

-- The library and the host. The actions of a transaction are named by numbers.
pub record Packing : Type 0 where
  pub header : Bytes → Result Header
  pub context_free : Bytes → Result (List ℕ)
  pub actions : Bytes → Result (List ℕ)
  -- `check_transaction_authorization(...) > 0`, with no keys and the packed levels
  pub authorizes : Bytes → List Level → Bool
  -- `assert_sha256` goes through
  pub has_hash : Bytes → Bytes → Bool

-- A call, whose clock is in microseconds, and the permission levels that have signed.
pub record Caller : Type 0 where
  pub env : Env
  pub open env use *
  pub has_level : Level → Bool

pub record Proposal : Type 0 where
  pub proposal_name : ℕ
  pub packed_transaction : Bytes
  -- a binary extension that holds an optional time
  pub earliest_exec_time : Option (Option ℕ)

pub record Approval : Type 0 where
  pub level : Level
  pub time : ℕ

pub record Approvals : Type 0 where
  pub version : ℕ
  pub proposal_name : ℕ
  pub requested_approvals : List Approval
  pub provided_approvals : List Approval

pub record Invalid : Type 0 where
  pub account : ℕ
  pub last_invalidation_time : ℕ

pub record Tables ⦃mi : MultiIndex⦄ : Type 0 where
  -- one of each for every proposer
  pub proposals : ℕ → Table Proposal
  pub approvals : ℕ → Table Approvals
  pub invalids : Table Invalid
