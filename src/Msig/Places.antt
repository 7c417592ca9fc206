-- ===== src/Msig/Places.antt =====
-- Each proposal of eosio.msig ends at most once: it is run, or it is cancelled
-- (contracts/eosio.msig/src/eosio.msig.cpp).
use twig_system_contracts.Prelude.{
  ℕ, Option, none, some, List, [], ◌∷◌, ◌+◌, ◌==◌, ◌&&◌, if◌then◌else◌, arith, ◌≡◌, refl, ap,
  Bool-cases, inl, inr,
}
use twig_system_contracts.Chain.{MultiIndex}
use twig_system_contracts.Msig.State.{Bytes, Packing, Caller, Tables}
use twig_system_contracts.Msig.Registry.{Action, Registry, put_at, Holds, registry}
use twig_system_contracts.Msig.History.{Log, run, replay, AllAllowed, run_refines}

-- 1 where a transaction is there.
abbrev pub taken : Option Bytes → ℕ
taken none = 0
taken (some trx) = 1

-- `k` at the place of a proposal.
abbrev pub at_place : ℕ → ℕ → ℕ → ℕ → ℕ → ℕ
at_place k p n q m = if q == p && m == n then k else 0

-- How often a place was taken by a proposal.
unfoldable pub proposed : ℕ → ℕ → Log → ℕ
proposed q m [] = 0
proposed q m ((Action.proposes p n levels trx, out) ∷ log) = at_place 1 p n q m + proposed q m log
proposed q m (other ∷ log) = proposed q m log

-- How often a proposal there was run or cancelled.
unfoldable pub ended : ℕ → ℕ → Log → ℕ
ended q m [] = 0
ended q m ((Action.executes p n executer, out) ∷ log) = at_place 1 p n q m + ended q m log
ended q m ((Action.cancels p n canceler, out) ∷ log) = at_place 1 p n q m + ended q m log
ended q m (other ∷ log) = ended q m log

Holds-taken : (o : Option Bytes) (P : Bytes → Type 0) → Holds o P → taken o ≡ 1
Holds-taken none P h = absurd h
Holds-taken (some trx) P h = refl

put_at-taken :
    (p n q m : ℕ) (o : Option Bytes) (reg : Registry)
    → taken (put_at p n o reg q m) + at_place (taken (reg p n)) p n q m
      ≡ taken (reg q m) + at_place (taken o) p n q m
put_at-taken p n q m o reg = elim (Bool-cases (q == p && m == n)) [
  | inl here ↦
      let eq : q ≡ p = ground arith in
      let em : m ≡ n = ground arith in
      let same : reg q m ≡ reg p n = rw (eq, em) refl in rw (here, same) (omega arith)
  | inr there ↦ rw there (omega arith)
]

at_place-zero : (p n q m : ℕ) → at_place 0 p n q m ≡ 0
at_place-zero p n q m = ground arith

-- A place that was free holds one more, and a place that was taken one less.
proposal_counts :
    (p n q m : ℕ) (trx : Bytes) (reg : Registry)
    → reg p n ≡ none
    → taken (put_at p n (some trx) reg q m) ≡ taken (reg q m) + at_place 1 p n q m
proposal_counts p n q m trx reg free =
    let g = put_at-taken p n q m (some trx) reg in
    let e : taken (reg p n) ≡ 0 = ap taken free in
    let g' : taken (put_at p n (some trx) reg q m) + at_place 0 p n q m
        ≡ taken (reg q m) + at_place 1 p n q m =
      rw e at g in
    omega (arith, at_place-zero p n q m, g')

ending_counts :
    (p n q m : ℕ) (reg : Registry)
    → taken (reg p n) ≡ 1
    → taken (put_at p n none reg q m) + at_place 1 p n q m ≡ taken (reg q m)
ending_counts p n q m reg there =
    let g = put_at-taken p n q m none reg in
    let g' : taken (put_at p n none reg q m) + at_place 1 p n q m
        ≡ taken (reg q m) + at_place 0 p n q m =
      rw there at g in
    omega (arith, at_place-zero p n q m, g')

-- A place is taken as often as it is left, but for what it held before and holds now.
replay_conserves :
    (host : Packing) (q m : ℕ) (log : Log) (reg : Registry)
    → AllAllowed host log reg
    → taken (reg q m) + proposed q m log ≡ ended q m log + taken (replay log reg q m)
unfolding AllAllowed replay proposed ended
replay_conserves host q m [] reg all = omega arith
replay_conserves host q m ((Action.proposes p n levels trx, out) ∷ log) reg (a, all) =
    let ih = replay_conserves host q m log (put_at p n (some trx) reg) all in
    omega (arith, proposal_counts p n q m trx reg a.0, ih)
replay_conserves host q m ((Action.executes p n executer, out) ∷ log) reg (a, all) =
    let ih = replay_conserves host q m log (put_at p n none reg) all in
    omega (arith, ending_counts p n q m reg (Holds-taken (reg p n) _ a), ih)
replay_conserves host q m ((Action.cancels p n canceler, out) ∷ log) reg (a, all) =
    let ih = replay_conserves host q m log (put_at p n none reg) all in
    omega (arith, ending_counts p n q m reg (Holds-taken (reg p n) _ a), ih)
replay_conserves host q m ((Action.approves p n level hash, out) ∷ log) reg (a, all) =
    replay_conserves host q m log reg all
replay_conserves host q m ((Action.unapproves p n level, out) ∷ log) reg (a, all) =
    replay_conserves host q m log reg all
replay_conserves host q m ((Action.invalidates account, out) ∷ log) reg (a, all) =
    replay_conserves host q m log reg all

-- Whatever the history, and for every proposer and name: the proposals that went through there,
-- with the one stored at the start, are as many as those that were run or cancelled, with the one
-- stored at the end. No proposal is run or cancelled twice, or both.
pub run_conserves :
    ⦃mi : MultiIndex⦄ (host : Packing) (acts : List (Caller × Action)) (st : Tables) (q m : ℕ)
    → taken (registry st q m) + proposed q m (run host acts st).1
      ≡ ended q m (run host acts st).1 + taken (registry (run host acts st).0 q m)
run_conserves host acts st q m =
    let (all, same) = run_refines host acts st in
    rw (← same) at (replay_conserves host q m (run host acts st).1 (registry st) all)
