-- ===== src/Msig/Following.antt =====
-- The actions of eosio.msig follow the registry (contracts/eosio.msig/src/eosio.msig.cpp).
use twig_system_contracts.Prelude.{
  ℕ, Option, none, some, List, [], ◌+◌, ◌*◌, leb, arith, ◌≡◌, refl, ◌∙◌, subst,
}
use twig_system_contracts.Chain.{
  MultiIndex, find, store, find-store, find-erase, at_scope, ok, >>=-eq-ok, ok-injective, or_fail,
  demand, check, message, require_auth, missing_authority, is_none, ◌>>=◌, Result,
}
use twig_system_contracts.Msig.State.{Level, Bytes, Packing, Caller, Proposal, Tables}
use twig_system_contracts.Msig.Actions.{
  propose, approve, unapprove, provide, withdraw, start_clock, stop_clock, check_hash, now_sec,
  is_empty, set_earliest,
}
use twig_system_contracts.Msig.Executing.{
  cancel, exec, invalidate, without_proposal, without_approvals, drop_approvals,
}
use twig_system_contracts.Msig.Safety.{exec-Runs}
use twig_system_contracts.Msig.Registry.{Action, put_at, registered, Holds, Allows, registry, act}

module _ ⦃mi : MultiIndex⦄ (host : Packing) where
  -- The registry allows the action, and afterwards holds what it says.
  pub record Follows (a : Action) (st : Tables) (r : Tables × List ℕ) : Type 0 where
    pub allowed : Allows host a (registry st) r.1
    pub after : (q m : ℕ) → registry r.0 q m ≡ registered a (registry st) q m

  Holds-some :
      (o : Option Bytes) (trx : Bytes) (P : Bytes → Type 0) → o ≡ some trx → P trx → Holds o P
  Holds-some o trx P e h = rw e h

  provide-proposals :
      (c : Caller) (p n : ℕ) (level : Level) (st st' : Tables)
      → provide host c p n level st ≡ ok st'
      → st'.proposals ≡ st.proposals
  unfolding provide
  provide-proposals c p n level st st' h = ground arith

  withdraw-proposals :
      (c : Caller) (p n : ℕ) (level : Level) (st st' : Tables)
      → withdraw host c p n level st ≡ ok st'
      → st'.proposals ≡ st.proposals
  unfolding withdraw
  withdraw-proposals c p n level st st' h = ground arith

  -- A new time leaves the transaction as it was.
  set_earliest-registry :
      (p n : ℕ) (row : Proposal) (time : Option ℕ) (st : Tables)
      → find n (st.proposals p) ≡ some row
      → (q m : ℕ) → registry (set_earliest host p n row time st) q m ≡ registry st q m
  set_earliest-registry p n row time st there q m =
      let row' : Proposal = record row { earliest_exec_time = some time } in
      ground (arith, find-store m n row' (st.proposals p))

  start_clock-registry :
      (c : Caller) (p n : ℕ) (row : Proposal) (st st' : Tables)
      → find n (st.proposals p) ≡ some row
      → start_clock host c p n row st ≡ ok st'
      → (q m : ℕ) → registry st' q m ≡ registry st q m
  unfolding start_clock
  start_clock-registry c p n row st st' there h q m =
      let (header, eh, h1) = >>=-eq-ok (host.header row.packed_transaction) _ h in
      let set : Proposal = record row {
        earliest_exec_time = some (some (c.now + header.delay_sec * 1000000));
      } in
      ground (arith, find-store m n set (st.proposals p))

  stop_clock-registry :
      (p n : ℕ) (row : Proposal) (st st' : Tables)
      → find n (st.proposals p) ≡ some row
      → stop_clock host p n row st ≡ ok st'
      → (q m : ℕ) → registry st' q m ≡ registry st q m
  unfolding stop_clock
  stop_clock-registry p n row st st' there h q m =
      let set : Proposal = record row { earliest_exec_time = some none } in
      ground (arith, find-store m n set (st.proposals p))

  approve-Follows :
      (c : Caller) (p n : ℕ) (level : Level) (hash : Option Bytes) (st st' : Tables)
      → approve host c p n level hash st ≡ ok st'
      → Follows (Action.approves p n level hash) st (st', [])
  unfolding approve
  approve-Follows c p n level hash st st' h =
      let (_, _, h1) = >>=-eq-ok (demand (c.has_level level) (missing_authority level.actor)) _ h in
      let (row, er, h2) =
        >>=-eq-ok (or_fail (find n (st.proposals p)) (message "proposal not found")) _ h1 in
      let (_, _, h3) = >>=-eq-ok (check_hash host hash row) _ h2 in
      let (mid, em, h4) = >>=-eq-ok (provide host c p n level st) _ h3 in
      let same = provide-proposals c p n level st mid em in
      let there : find n (st.proposals p) ≡ some row = ground arith in
      let there' : find n (mid.proposals p) ≡ some row = rw same there in
      record {
        allowed = rw there refl;
        after = λ q m. start_clock-registry c p n row mid st' there' h4 q m ∙ rw same refl;
      }

  unapprove-Follows :
      (c : Caller) (p n : ℕ) (level : Level) (st st' : Tables)
      → unapprove host c p n level st ≡ ok st'
      → Follows (Action.unapproves p n level) st (st', [])
  unfolding unapprove
  unapprove-Follows c p n level st st' h =
      let (_, _, h1) = >>=-eq-ok (demand (c.has_level level) (missing_authority level.actor)) _ h in
      let (mid, em, h2) = >>=-eq-ok (withdraw host c p n level st) _ h1 in
      let (row, er, h3) =
        >>=-eq-ok (or_fail (find n (mid.proposals p)) (message "proposal not found")) _ h2 in
      let same = withdraw-proposals c p n level st mid em in
      let there' : find n (mid.proposals p) ≡ some row = ground arith in
      let there : find n (st.proposals p) ≡ some row = rw (← same) there' in
      record {
        allowed = rw there refl;
        after = λ q m. stop_clock-registry p n row mid st' there' h3 q m ∙ rw same refl;
      }

  -- A proposal that is taken out leaves its place free, and the others as they were.
  without-registry :
      (p n q m : ℕ) (st : Tables)
      → registry (without_proposal p n st) q m ≡ put_at p n none (registry st) q m
  without-registry p n q m st = ground (arith, find-erase m n (st.proposals p))

  cancel-Follows :
      (c : Caller) (p n canceler : ℕ) (st st' : Tables)
      → cancel host c p n canceler st ≡ ok st'
      → Follows (Action.cancels p n canceler) st (st', [])
  unfolding cancel
  cancel-Follows c p n canceler st st' h =
      let (_, _, h1) = >>=-eq-ok (require_auth c.env canceler) _ h in
      let (row, er, h2) =
        >>=-eq-ok (or_fail (find n (st.proposals p)) (message "proposal not found")) _ h1 in
      let there : find n (st.proposals p) ≡ some row = ground arith in
      let es : st' ≡ without_approvals p n (without_proposal p n st) = ground arith in
      record { allowed = rw there refl; after = λ q m. rw es (without-registry p n q m st) }

  propose-Follows :
      (c : Caller) (p n : ℕ) (levels : List Level) (trx : Bytes) (st st' : Tables)
      → propose host c p n levels trx st ≡ ok st'
      → Follows (Action.proposes p n levels trx) st (st', [])
  unfolding propose
  propose-Follows c p n levels trx st st' h =
      let (_, _, h1) = >>=-eq-ok (require_auth c.env p) _ h in
      let (header, _, h2) = >>=-eq-ok (host.header trx) _ h1 in
      let (_, _, h3) = >>=-eq-ok (check (leb (now_sec c) header.expiration) _) _ h2 in
      let (free, _, h4) = >>=-eq-ok (host.context_free trx) _ h3 in
      let (_, _, h5) = >>=-eq-ok (check (is_empty free) _) _ h4 in
      let (_, new, h6) = >>=-eq-ok (check (is_none (find n (st.proposals p))) _) _ h5 in
      let row : Proposal = record {
        proposal_name = n;
        packed_transaction = trx;
        earliest_exec_time = some none;
      } in
      let vacant : find n (st.proposals p) ≡ none = ground arith in
      let es : st'.proposals ≡ at_scope p (store n row (st.proposals p)) st.proposals =
        ground arith in
      record {
        allowed = (rw vacant refl, refl);
        after = λ q m. rw es (ground (arith, find-store m n row (st.proposals p)));
      }

  drop_approvals-proposals :
      (p n : ℕ) (st : Tables) → (drop_approvals p n st).proposals ≡ st.proposals
  drop_approvals-proposals p n st = ground arith

  exec-Follows :
      (c : Caller) (p n executer : ℕ) (st : Tables) (r : Tables × List ℕ)
      → exec host c p n executer st ≡ ok r
      → Follows (Action.executes p n executer) st r
  exec-Follows c p n executer st r h =
      let (runs, es) = exec-Runs host c p n executer st r h in
      let there = runs.stored in
      let same = drop_approvals-proposals p n st in
      record {
        allowed = rw there runs.packed;
        after = λ q m. rw es (without-registry p n q m (drop_approvals p n st) ∙ rw same refl);
      }

  invalidate-Follows :
      (c : Caller) (account : ℕ) (st st' : Tables)
      → invalidate c account st ≡ ok st'
      → Follows (Action.invalidates account) st (st', [])
  unfolding invalidate
  invalidate-Follows c account st st' h =
      let same : st'.proposals ≡ st.proposals = ground arith in
      record { allowed = refl; after = λ q m. rw same refl }

  quiet-Follows :
      (a : Action) (st : Tables) (step : Result Tables) (r : Tables × List ℕ)
      → (step >>= λ st'. ok (st', [])) ≡ ok r
      → ((st' : Tables) → step ≡ ok st' → Follows a st (st', []))
      → Follows a st r
  quiet-Follows a st step r h f =
      let (st', es, h1) = >>=-eq-ok step _ h in subst (Follows a st) (ok-injective h1) (f st' es)

  -- Whatever action goes through, the registry allows it, with what it runs, and the tables hold
  -- the registry that it leaves: the contract refines the registry.
  pub act-Follows :
      (c : Caller) (a : Action) (st : Tables) (r : Tables × List ℕ)
      → act host c a st ≡ ok r
      → Follows a st r
  unfolding act
  act-Follows c (Action.proposes p n levels trx) st r h =
      quiet-Follows _ st _ r h (propose-Follows c p n levels trx st)
  act-Follows c (Action.approves p n level hash) st r h =
      quiet-Follows _ st _ r h (approve-Follows c p n level hash st)
  act-Follows c (Action.unapproves p n level) st r h =
      quiet-Follows _ st _ r h (unapprove-Follows c p n level st)
  act-Follows c (Action.cancels p n canceler) st r h =
      quiet-Follows _ st _ r h (cancel-Follows c p n canceler st)
  act-Follows c (Action.executes p n executer) st r h = exec-Follows c p n executer st r h
  act-Follows c (Action.invalidates account) st r h =
      quiet-Follows _ st _ r h (invalidate-Follows c account st)
