-- ===== src/Msig/Actions.antt =====
-- The actions of eosio.msig (contracts/eosio.msig/src/eosio.msig.cpp).
use twig_system_contracts.Prelude.{
  ℕ, Bool, true, false, Option, none, some, List, [], ◌∷◌, ◌++◌, map, ◌+◌, ◌*◌, ◌/◌, leb, ◌==◌,
}
use twig_system_contracts.Chain.{
  MultiIndex, find, store, emplace, at_scope, require_auth, Result, ok, refused, missing_authority,
  message, ◌>>=◌, ◌>>◌, check, demand, or_fail, is_none,
}
use twig_system_contracts.Msig.State.{
  Level, Bytes, Header, Packing, Caller, Proposal, Approval, Tables,
}
use twig_system_contracts.Msig.Approvals.{take_out, get_approvals}

-- `time_point_sec(current_time_point())`
abbrev pub now_sec : Caller → ℕ
now_sec c = c.now / 1000000

abbrev pub old_delay : Header → Result (Unit {0})
old_delay header =
    check (header.delay_sec == 0)
      "old proposals are not allowed to have non-zero `delay_sec`; cancel and retry"

-- What is asked of a requested level: it is there, and no time is set.
abbrev pub unanswered : Level → Approval
unanswered level = record { level = level; time = 0 }

unfoldable pub is_empty : List ℕ → Bool
is_empty [] = true
is_empty (a ∷ rest) = false

module _ ⦃mi : MultiIndex⦄ (host : Packing) where
  unfoldable pub propose : Caller → ℕ → ℕ → List Level → Bytes → Tables → Result Tables
  unfolding is_empty
  propose c proposer proposal_name requested trx st = do
    require_auth c.env proposer
    header ← host.header trx
    check (leb (now_sec c) header.expiration) "transaction expired"
    context_free ← host.context_free trx
    check (is_empty context_free) "not allowed to `propose` a transaction with context-free actions"
    check (is_none (find proposal_name (st.proposals proposer)))
        "proposal with the same name exists"
    check (host.authorizes trx requested) "transaction authorization failed"
    proposals ←
        emplace proposal_name
          (record {
            proposal_name = proposal_name;
            packed_transaction = trx;
            earliest_exec_time = some none;
          })
          (st.proposals proposer)
    approvals ←
        emplace proposal_name
          (record {
            version = 1;
            proposal_name = proposal_name;
            requested_approvals = map unanswered requested;
            provided_approvals = [];
          })
          (st.approvals proposer)
    ok (record st {
      proposals = at_scope proposer proposals st.proposals;
      approvals = at_scope proposer approvals st.approvals;
    })

  -- The first half of `approve`: the level moves from the requested ones to the provided ones.
  unfoldable pub provide : Caller → ℕ → ℕ → Level → Tables → Result Tables
  provide c proposer proposal_name level st = do
    row ←
        or_fail (find proposal_name (st.approvals proposer))
          (message "approval is not on the list of requested approvals")
    left ←
        or_fail (take_out level row.requested_approvals)
          (message "approval is not on the list of requested approvals")
    ok (record st {
      approvals =
          at_scope proposer
            (store proposal_name
              (record row {
                provided_approvals =
                    row.provided_approvals ++ record { level = level; time = c.now } ∷ [];
                requested_approvals = left;
              })
              (st.approvals proposer))
            st.approvals;
    })

  -- The first half of `unapprove`.
  unfoldable pub withdraw : Caller → ℕ → ℕ → Level → Tables → Result Tables
  withdraw c proposer proposal_name level st = do
    row ←
        or_fail (find proposal_name (st.approvals proposer))
          (message "no approval previously granted")
    left ←
        or_fail (take_out level row.provided_approvals) (message "no approval previously granted")
    ok (record st {
      approvals =
          at_scope proposer
            (store proposal_name
              (record row {
                requested_approvals =
                    row.requested_approvals ++ record { level = level; time = c.now } ∷ [];
                provided_approvals = left;
              })
              (st.approvals proposer))
            st.approvals;
    })

  -- `modify` of a proposal's `earliest_exec_time`.
  abbrev pub set_earliest : ℕ → ℕ → Proposal → Option ℕ → Tables → Tables
  set_earliest proposer proposal_name row time st = record st {
    proposals =
        at_scope proposer
          (store proposal_name (record row { earliest_exec_time = some time })
            (st.proposals proposer))
          st.proposals;
  }

  -- The second half of `approve`: the clock starts once the transaction is authorized.
  unfoldable pub start_clock : Caller → ℕ → ℕ → Proposal → Tables → Result Tables
  start_clock c proposer proposal_name row st = do
    header ← host.header row.packed_transaction
    elim row.earliest_exec_time [
      | none ↦ do old_delay header; ok st
      | some none ↦
          elim (host.authorizes row.packed_transaction (get_approvals proposer proposal_name st)) [
            | true ↦ ok (
                set_earliest proposer proposal_name row (some (c.now + header.delay_sec * 1000000))
                  st)
            | false ↦ ok st
          ]
      | some (some time) ↦ ok st
    ]

  -- The second half of `unapprove`: the clock stops once it is no longer authorized.
  unfoldable pub stop_clock : ℕ → ℕ → Proposal → Tables → Result Tables
  stop_clock proposer proposal_name row st = elim row.earliest_exec_time [
    | none ↦ do header ← host.header row.packed_transaction; old_delay header; ok st
    | some none ↦ ok st
    | some (some time) ↦
        elim (host.authorizes row.packed_transaction (get_approvals proposer proposal_name st)) [
          | true ↦ ok st
          | false ↦ ok (set_earliest proposer proposal_name row none st)
        ]
  ]

  abbrev pub check_hash : Option Bytes → Proposal → Result (Unit {0})
  check_hash none row = ok tt
  check_hash (some hash) row = demand (host.has_hash row.packed_transaction hash) refused

  unfoldable pub approve : Caller → ℕ → ℕ → Level → Option Bytes → Tables → Result Tables
  unfolding provide start_clock
  approve c proposer proposal_name level hash st = do
    demand (c.has_level level) (missing_authority level.actor)
    row ← or_fail (find proposal_name (st.proposals proposer)) (message "proposal not found")
    check_hash hash row
    st' ← provide c proposer proposal_name level st
    start_clock c proposer proposal_name row st'

  unfoldable pub unapprove : Caller → ℕ → ℕ → Level → Tables → Result Tables
  unfolding withdraw stop_clock
  unapprove c proposer proposal_name level st = do
    demand (c.has_level level) (missing_authority level.actor)
    st' ← withdraw c proposer proposal_name level st
    row ← or_fail (find proposal_name (st'.proposals proposer)) (message "proposal not found")
    stop_clock proposer proposal_name row st'
