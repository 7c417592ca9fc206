-- ===== src/Msig/Safety.antt =====
-- What it takes to run a proposal (contracts/eosio.msig/src/eosio.msig.cpp).
use twig_system_contracts.Prelude.{
  ℕ, true, Option, none, some, List, [], ◌∷◌, ◌≤◌, leb, arith, ◌≡◌, ◌≢◌, refl, sym, ap, subst,
}
use twig_system_contracts.Chain.{
  MultiIndex, find, find-erase, ok, require_auth, or_fail, message, check, ok-injective, >>=-eq-ok,
}
use twig_system_contracts.Msig.State.{Header, Packing, Caller, Proposal, Tables}
use twig_system_contracts.Msig.Approvals.{get_approvals}
use twig_system_contracts.Msig.Actions.{now_sec, is_empty}
use twig_system_contracts.Msig.Executing.{exec, without_proposal, drop_approvals, check_time}

-- The clock allows the proposal: its time has come, or it has none and its transaction no delay.
abbrev pub IsDue : Caller → Header → Option (Option ℕ) → Type 0
IsDue c header (some (some time)) = time ≤ c.now
IsDue c header (some none) = header.delay_sec ≡ 0
IsDue c header none = header.delay_sec ≡ 0

module _ ⦃mi : MultiIndex⦄ (host : Packing) where
  -- The facts under which `exec` runs the actions of a proposal.
  pub record Runs (c : Caller) (proposer name : ℕ) (st : Tables) (actions : List ℕ) : Type 0 where
    pub row : Proposal
    pub header : Header
    pub stored : find name (st.proposals proposer) ≡ some row
    pub read : host.header row.packed_transaction ≡ ok header
    pub unexpired : now_sec c ≤ header.expiration
    pub none_free : host.context_free row.packed_transaction ≡ ok []
    pub packed : host.actions row.packed_transaction ≡ ok actions
    pub authorized : host.authorizes row.packed_transaction (get_approvals proposer name st) ≡ true
    pub due : IsDue c header row.earliest_exec_time

  check_time-IsDue :
      (c : Caller) (header : Header) (o : Option (Option ℕ))
      → check_time host c header o ≡ ok tt
      → IsDue c header o
  check_time-IsDue c header none h = ground arith
  check_time-IsDue c header (some none) h = ground arith
  check_time-IsDue c header (some (some time)) h = ground arith

  is_empty-nil : (l : List ℕ) → is_empty l ≡ true → l ≡ []
  unfolding is_empty
  is_empty-nil [] h = refl
  is_empty-nil (a ∷ l) h = cc

  exec_removes :
      (proposer name : ℕ) (st : Tables)
      → find name
          ((without_proposal proposer name (drop_approvals proposer name st)).proposals proposer)
        ≡ none
  exec_removes proposer name st = ground (arith, find-erase name name (st.proposals proposer))

  pub exec-Runs :
      (c : Caller) (proposer name executer : ℕ) (st : Tables) (r : Tables × List ℕ)
      → exec host c proposer name executer st ≡ ok r
      → Runs c proposer name st r.1
        × (r.0 ≡ without_proposal proposer name (drop_approvals proposer name st))
  unfolding exec
  exec-Runs c proposer name executer st r h =
      let (_, _, h1) = >>=-eq-ok (require_auth c.env executer) _ h in
      let (row, er, h2) =
        >>=-eq-ok (or_fail (find name (st.proposals proposer)) (message "proposal not found")) _
          h1 in
      let (header, eh, h3) = >>=-eq-ok (host.header row.packed_transaction) _ h2 in
      let (_, ex, h4) =
        >>=-eq-ok (check (leb (now_sec c) header.expiration) "transaction expired") _ h3 in
      let (free, ef, h5) = >>=-eq-ok (host.context_free row.packed_transaction) _ h4 in
      let (_, ee, h6) =
        >>=-eq-ok
          (check (is_empty free) "not allowed to `exec` a transaction with context-free actions") _
          h5 in
      let (actions, ea, h7) = >>=-eq-ok (host.actions row.packed_transaction) _ h6 in
      let (_, eo, h8) =
        >>=-eq-ok
          (check (host.authorizes row.packed_transaction (get_approvals proposer name st))
            "transaction authorization failed")
          _ h7 in
      let (_, et, h9) = >>=-eq-ok (check_time host c header row.earliest_exec_time) _ h8 in
      let done : ◌≡◌ {A = Tables × List ℕ}
          (without_proposal proposer name (drop_approvals proposer name st), actions) r =
        ok-injective h9 in
      let free_nil : free ≡ [] = is_empty-nil free (ground arith) in
      (
        record {
          row = row;
          header = header;
          stored = ground arith;
          read = eh;
          unexpired = ground arith;
          none_free = subst (λ l. host.context_free row.packed_transaction ≡ ok l) free_nil ef;
          packed = subst (λ z. host.actions row.packed_transaction ≡ ok z.1) done ea;
          authorized = ground arith;
          due = check_time-IsDue c header row.earliest_exec_time et;
        },
        ap (λ z. z.0) (sym done),
      )

  -- A proposal runs at most once. `exec` goes through only if the proposal is stored, its
  -- transaction is not expired, has no context-free actions, is authorized by the approvals that
  -- count at the time, and is due; it then sends exactly the actions that are packed in it, in
  -- their order, and the proposal is gone, so that a second `exec` of it fails.
  pub exec_once :
      (c c' : Caller) (proposer name executer executer' : ℕ) (st : Tables) (r : Tables × List ℕ)
      → exec host c proposer name executer st ≡ ok r
      → Runs c proposer name st r.1
        × (find name (r.0.proposals proposer) ≡ none)
        × ((r' : Tables × List ℕ) → exec host c' proposer name executer' r.0 ≢ ok r')
  exec_once c c' proposer name executer executer' st r h =
      let (runs, es) = exec-Runs c proposer name executer st r h in
      let gone : find name (r.0.proposals proposer) ≡ none =
        rw es (exec_removes proposer name st) in
      (
        runs,
        gone,
        λ r' h'.
            let again = (exec-Runs c' proposer name executer' r.0 r' h').0.stored in ground arith,
      )
