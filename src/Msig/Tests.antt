-- ===== src/Msig/Tests.antt =====
-- Runs of eosio.msig at concrete proposals, and each theorem at a concrete input.
use twig_system_contracts.Prelude.{
  ℕ, true, false, none, some, List, [], ◌∷◌, ◌≡◌, ◌≢◌, refl, Bool, arith,
}
use twig_system_contracts.Chain.{find, store, erase, empty_table, at_scope, ok}
use twig_system_contracts.Chain.Listed.{listed}
use twig_system_contracts.Msig.State.{Level, Packing, Caller, Proposal, Approvals, Invalid, Tables}
use twig_system_contracts.Msig.Approvals.{take_out, valid_levels, get_approvals}
use twig_system_contracts.Msig.Actions.{
  provide, start_clock, withdraw, stop_clock, approve, unapprove, is_empty,
}
use twig_system_contracts.Msig.Executing.{exec, without_proposal, drop_approvals, invalidate}
use twig_system_contracts.Msig.Safety.{Runs, exec_once}
use twig_system_contracts.Msig.Levels.{MovesOne, Rows, approve-MovesOne}
use twig_system_contracts.Msig.Invalidating.{without_account, invalidate_lem}

abbrev pub enough : List Level → Bool
enough [] = false
enough (a ∷ l) = true

-- A transaction that holds actions 1 and 2, and that any one level authorizes.
abbrev pub host : Packing
host = record {
  header = λ trx. ok (record { expiration = 100; delay_sec = 0 });
  context_free = λ trx. ok [];
  actions = λ trx. ok (1 ∷ 2 ∷ []);
  authorizes = λ trx l. enough l;
  has_hash = λ trx hash. true;
}

abbrev pub caller : Caller
caller = record {
  env = record { self = 5; has_auth = λ n. true; is_account = λ n. true; now = 60000000 };
  has_level = λ l. true;
}

abbrev pub alice : Level
alice = record { actor = 10; permission = 1 }

abbrev pub proposal : Proposal
proposal = record { proposal_name = 3; packed_transaction = []; earliest_exec_time = some none }

abbrev pub asked : Approvals
asked = record {
  version = 1;
  proposal_name = 3;
  requested_approvals = record { level = alice; time = 0 } ∷ [];
  provided_approvals = [];
}

abbrev granted : Approvals
granted = record asked {
  requested_approvals = [];
  provided_approvals = record { level = alice; time = 60000000 } ∷ [];
}

abbrev pub with_rows : Proposal → Approvals → Tables
with_rows p a = record {
  proposals = at_scope 7 (store 3 p (empty_table Proposal)) (λ n. empty_table Proposal);
  approvals = at_scope 7 (store 3 a (empty_table Approvals)) (λ n. empty_table Approvals);
  invalids = empty_table Invalid;
}

abbrev provided : Tables
provided = with_rows proposal granted

-- What `approve` leaves.
abbrev approved : Tables
approved = record (with_rows proposal asked) {
  approvals =
      at_scope 7 (store 3 granted ((with_rows proposal asked).approvals 7))
        (with_rows proposal asked).approvals;
  proposals =
      at_scope 7
        (store 3 (record proposal { earliest_exec_time = some (some 60000000) })
          ((with_rows proposal asked).proposals 7))
        (with_rows proposal asked).proposals;
}

approve-ok : approve host caller 7 3 alice none (with_rows proposal asked) ≡ ok approved
unfolding approve provide start_clock take_out get_approvals valid_levels find store empty_table
approve-ok = refl

approve-MovesOne_example :
    (true ≡ true)
    × ((rows : Rows host 7 3 (with_rows proposal asked) approved) × MovesOne alice
          rows.before.requested_approvals rows.before.provided_approvals
          rows.after.requested_approvals rows.after.provided_approvals)
approve-MovesOne_example =
    approve-MovesOne host caller 7 3 alice none (with_rows proposal asked) approved approve-ok

abbrev unapproved : Tables
unapproved = record provided {
  approvals =
      at_scope 7
        (store 3
          (record granted {
            requested_approvals = record { level = alice; time = 60000000 } ∷ [];
            provided_approvals = [];
          })
          (provided.approvals 7))
        provided.approvals;
}

unapprove-ok : unapprove host caller 7 3 alice provided ≡ ok unapproved
unfolding unapprove withdraw stop_clock take_out get_approvals valid_levels find store empty_table
unapprove-ok = refl

abbrev executed : Tables
executed = without_proposal 7 3 (drop_approvals 7 3 provided)

exec-ok : exec host caller 7 3 9 provided ≡ ok (executed, 1 ∷ 2 ∷ [])
unfolding exec is_empty get_approvals valid_levels find store erase empty_table
exec-ok = refl

exec_once_example :
    Runs host caller 7 3 provided (1 ∷ 2 ∷ [])
    × (find 3 (executed.proposals 7) ≡ none)
    × ((r : Tables × List ℕ) → exec host caller 7 3 9 executed ≢ ok r)
exec_once_example = exec_once host caller caller 7 3 9 9 provided (executed, 1 ∷ 2 ∷ []) exec-ok

abbrev invalidated : Tables
invalidated = record provided {
  invalids =
      store 10 (record { account = 10; last_invalidation_time = 60000000 }) provided.invalids;
}

invalidate-ok : invalidate caller 10 provided ≡ ok invalidated
unfolding invalidate find store empty_table
invalidate-ok = refl

invalidate_example :
    valid_levels invalidated.invalids granted.provided_approvals
    ≡ without_account 10 (valid_levels provided.invalids granted.provided_approvals)
invalidate_example =
    invalidate_lem caller 10 provided invalidated granted.provided_approvals invalidate-ok
      (omega arith, tt)
