-- ===== src/Msig/Executing.antt =====
-- The actions of eosio.msig that end a proposal, and `invalidate`
-- (contracts/eosio.msig/src/eosio.msig.cpp).
use twig_system_contracts.Prelude.{
  ℕ, true, false, Option, none, some, List, ltb, leb, ◌==◌, if◌then◌else◌,
}
use twig_system_contracts.Chain.{
  MultiIndex, find, store, erase, emplace, at_scope, require_auth, Result, ok, message, ◌>>=◌, ◌>>◌,
  check, or_fail, is_some,
}
use twig_system_contracts.Msig.State.{Header, Packing, Caller, Tables}
use twig_system_contracts.Msig.Approvals.{get_approvals}
use twig_system_contracts.Msig.Actions.{now_sec, old_delay, is_empty}

module _ ⦃mi : MultiIndex⦄ where
  abbrev pub without_proposal : ℕ → ℕ → Tables → Tables
  without_proposal proposer proposal_name st = record st {
    proposals = at_scope proposer (erase proposal_name (st.proposals proposer)) st.proposals;
  }

  abbrev pub without_approvals : ℕ → ℕ → Tables → Tables
  without_approvals proposer proposal_name st = record st {
    approvals = at_scope proposer (erase proposal_name (st.approvals proposer)) st.approvals;
  }

  unfoldable pub invalidate : Caller → ℕ → Tables → Result Tables
  invalidate c account st = do
    require_auth c.env account
    elim (find account st.invalids) [
      | none ↦ do
        invalids ←
            emplace account (record { account = account; last_invalidation_time = c.now })
              st.invalids
        ok (record st { invalids = invalids })
      | some row ↦ ok (record st {
        invalids = store account (record row { last_invalidation_time = c.now }) st.invalids;
      })
    ]

  -- The table operation of `exec`: the row of approvals goes, where there is one.
  abbrev pub drop_approvals : ℕ → ℕ → Tables → Tables
  drop_approvals proposer proposal_name st =
      if is_some (find proposal_name (st.approvals proposer))
      then without_approvals proposer proposal_name st
      else st

  module _ (host : Packing) where
    unfoldable pub cancel : Caller → ℕ → ℕ → ℕ → Tables → Result Tables
    cancel c proposer proposal_name canceler st = do
      require_auth c.env canceler
      row ← or_fail (find proposal_name (st.proposals proposer)) (message "proposal not found")
      elim (canceler == proposer) [
        | true ↦ ok tt
        | false ↦ do
          header ← host.header row.packed_transaction
          check (ltb header.expiration (now_sec c)) "cannot cancel until expiration"
      ]
      check (is_some (find proposal_name (st.approvals proposer))) "approval not found"
      ok (without_approvals proposer proposal_name (without_proposal proposer proposal_name st))

    -- The test of the time: `has_value() && ->has_value()`.
    abbrev pub check_time : Caller → Header → Option (Option ℕ) → Result (Unit {0})
    check_time c header (some (some time)) = check (leb time c.now) "too early to execute"
    check_time c header (some none) = old_delay header
    check_time c header none = old_delay header

    -- The second part of the result is the actions that are sent, in their order.
    unfoldable pub exec : Caller → ℕ → ℕ → ℕ → Tables → Result (Tables × List ℕ)
    unfolding is_empty
    exec c proposer proposal_name executer st = do
      require_auth c.env executer
      row ← or_fail (find proposal_name (st.proposals proposer)) (message "proposal not found")
      header ← host.header row.packed_transaction
      check (leb (now_sec c) header.expiration) "transaction expired"
      context_free ← host.context_free row.packed_transaction
      check (is_empty context_free) "not allowed to `exec` a transaction with context-free actions"
      actions ← host.actions row.packed_transaction
      check (host.authorizes row.packed_transaction (get_approvals proposer proposal_name st))
          "transaction authorization failed"
      check_time c header row.earliest_exec_time
      ok (
        without_proposal proposer proposal_name (drop_approvals proposer proposal_name st),
        actions,
      )
