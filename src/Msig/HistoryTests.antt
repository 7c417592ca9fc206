-- ===== src/Msig/HistoryTests.antt =====
-- A run of eosio.msig, and the theorems on histories at it.
use twig_system_contracts.Prelude.{none, List, [], ◌∷◌, ◌+◌, ◌≡◌, refl}
use twig_system_contracts.Chain.{find, store, erase, empty_table}
use twig_system_contracts.Chain.Listed.{listed}
use twig_system_contracts.Msig.State.{Caller, Tables}
use twig_system_contracts.Msig.Approvals.{take_out, valid_levels, get_approvals}
use twig_system_contracts.Msig.Actions.{propose, provide, start_clock, approve, is_empty}
use twig_system_contracts.Msig.Executing.{exec, cancel}
use twig_system_contracts.Msig.Registry.{Action, registry, act}
use twig_system_contracts.Msig.History.{Log, run, replay, AllAllowed, run_refines}
use twig_system_contracts.Msig.Places.{taken, proposed, ended, run_conserves}
use twig_system_contracts.Msig.Tests.{host, caller, alice, proposal, asked, with_rows}

abbrev start : Tables
start = with_rows proposal asked

-- It runs too early, is approved, runs, cannot run again, and is proposed and cancelled anew.
abbrev acts : List (Caller × Action)
acts =
    (caller, Action.executes 7 3 9)
    ∷ (caller, Action.approves 7 3 alice none)
    ∷ (caller, Action.executes 7 3 9)
    ∷ (caller, Action.executes 7 3 9)
    ∷ (caller, Action.proposes 7 3 (alice ∷ []) (4 ∷ []))
    ∷ (caller, Action.cancels 7 3 7)
    ∷ (caller, Action.cancels 7 3 7)
    ∷ []

abbrev log : Log
log =
    (Action.approves 7 3 alice none, [])
    ∷ (Action.executes 7 3 9, 1 ∷ 2 ∷ [])
    ∷ (Action.proposes 7 3 (alice ∷ []) (4 ∷ []), [])
    ∷ (Action.cancels 7 3 7, [])
    ∷ []

run-log : (run host acts start).1 ≡ log
unfolding run act exec cancel propose approve provide start_clock take_out get_approvals
    valid_levels is_empty find store erase empty_table
run-log = refl

run-proposed : proposed 7 3 log ≡ 1
unfolding proposed
run-proposed = refl

run-ended : ended 7 3 log ≡ 2
unfolding ended
run-ended = refl

run_refines_example :
    AllAllowed host (run host acts start).1 (registry start)
    × (registry (run host acts start).0 ≡ replay (run host acts start).1 (registry start))
run_refines_example = run_refines host acts start

run_conserves_example :
    taken (registry start 7 3) + proposed 7 3 (run host acts start).1
    ≡ ended 7 3 (run host acts start).1 + taken (registry (run host acts start).0 7 3)
run_conserves_example = run_conserves host acts start 7 3
