-- ===== src/Msig/Levels.antt =====
-- What approving, unapproving and invalidating do to the approvals of a proposal
-- (contracts/eosio.msig/src/eosio.msig.cpp).
use twig_system_contracts.Prelude.{
  ℕ, Bool, true, false, Option, some, List, [], ◌∷◌, ◌++◌, ◌+◌, arith, ◌≡◌, ◌∙◌, ap, Option-cases,
  Bool-cases, inl, inr,
}
use twig_system_contracts.Chain.{
  MultiIndex, find, find-store, ok, or_fail, message, demand, missing_authority, >>=-eq-ok,
}
use twig_system_contracts.Msig.State.{
  Level, eq_level, Bytes, Packing, Caller, Proposal, Approval, Approvals, Tables,
}
use twig_system_contracts.Msig.Approvals.{take_out}
use twig_system_contracts.Msig.Actions.{
  provide, withdraw, start_clock, stop_clock, check_hash, approve, unapprove,
}

abbrev pub one_if : Bool → ℕ
one_if true = 1
one_if false = 0

-- How often a level stands in a list of approvals.
abbrev pub count : Level → List Approval → ℕ
count x [] = 0
count x (a ∷ rest) = one_if (eq_level a.level x) + count x rest

count-append : (x : Level) (l m : List Approval) → count x (l ++ m) ≡ count x l + count x m
count-append x [] m = omega arith
count-append x (a ∷ l) m = omega (arith, count-append x l m)

eq_level-same :
    (a b x : Level) → eq_level a b ≡ true → one_if (eq_level a x) ≡ one_if (eq_level b x)
eq_level-same a b x h = ground arith

-- Exactly one approval of the level is taken out.
take_out-count :
    (x level : Level) (l left : List Approval)
    → take_out level l ≡ some left
    → count x l ≡ count x left + one_if (eq_level level x)
unfolding take_out
take_out-count x level [] left h = cc
take_out-count x level (a ∷ l) left h = elim (Bool-cases (eq_level a.level level)) [
  | inl hit ↦
      let e : l ≡ left = ground arith in rw (← e) (omega (arith, eq_level-same a.level level x hit))
  | inr miss ↦ elim (Option-cases (take_out level l)) [
    | inl gone ↦ absurd (ground arith)
    | inr (rest, more) ↦
        let e : a ∷ rest ≡ left = ground arith in
        rw (← e) (omega (arith, take_out-count x level l rest more))
  ]
]

-- One approval of `level` has moved from `here` to `there`.
pub record MovesOne (level : Level) (here there here' there' : List Approval) : Type 0 where
  pub left : (x : Level) → count x here ≡ count x here' + one_if (eq_level level x)
  pub came : (x : Level) → count x there' ≡ count x there + one_if (eq_level level x)

take_out-MovesOne :
    (level : Level) (time : ℕ) (here there left : List Approval)
    → take_out level here ≡ some left
    → MovesOne level here there left (there ++ record { level = level; time = time } ∷ [])
take_out-MovesOne level time here there left h = record {
  left = λ x. take_out-count x level here left h;
  came = λ x. omega (arith, count-append x there (record { level = level; time = time } ∷ []));
}

module _ ⦃mi : MultiIndex⦄ (host : Packing) where
  start_clock-approvals :
      (c : Caller) (proposer name : ℕ) (row : Proposal) (st st' : Tables)
      → start_clock host c proposer name row st ≡ ok st'
      → st'.approvals ≡ st.approvals
  unfolding start_clock
  start_clock-approvals c proposer name row st st' h = ground arith

  stop_clock-approvals :
      (proposer name : ℕ) (row : Proposal) (st st' : Tables)
      → stop_clock host proposer name row st ≡ ok st'
      → st'.approvals ≡ st.approvals
  unfolding stop_clock
  stop_clock-approvals proposer name row st st' h = ground arith

  -- The row of approvals of a proposal before and after.
  pub record Rows (proposer name : ℕ) (st st' : Tables) : Type 0 where
    pub before : Approvals
    pub after : Approvals
    pub stored : find name (st.approvals proposer) ≡ some before
    pub changed : find name (st'.approvals proposer) ≡ some after

  provide-Rows :
      (c : Caller) (proposer name : ℕ) (level : Level) (st st' : Tables)
      → provide host c proposer name level st ≡ ok st'
      → (rows : Rows proposer name st st') × MovesOne level rows.before.requested_approvals
          rows.before.provided_approvals rows.after.requested_approvals
          rows.after.provided_approvals
  unfolding provide
  provide-Rows c proposer name level st st' h =
      let (row, er, h1) =
        >>=-eq-ok
          (or_fail (find name (st.approvals proposer))
            (message "approval is not on the list of requested approvals"))
          _ h in
      let (left, el, h2) =
        >>=-eq-ok
          (or_fail (take_out level row.requested_approvals)
            (message "approval is not on the list of requested approvals"))
          _ h1 in
      let new : Approvals = record row {
        provided_approvals = row.provided_approvals ++ record { level = level; time = c.now } ∷ [];
        requested_approvals = left;
      } in
      (
        record {
          before = row;
          after = new;
          stored = ground arith;
          changed = ground (arith, find-store name name new (st.approvals proposer));
        },
        take_out-MovesOne level c.now row.requested_approvals row.provided_approvals left
            (ground arith),
      )

  withdraw-Rows :
      (c : Caller) (proposer name : ℕ) (level : Level) (st st' : Tables)
      → withdraw host c proposer name level st ≡ ok st'
      → (rows : Rows proposer name st st') × MovesOne level rows.before.provided_approvals
          rows.before.requested_approvals rows.after.provided_approvals
          rows.after.requested_approvals
  unfolding withdraw
  withdraw-Rows c proposer name level st st' h =
      let (row, er, h1) =
        >>=-eq-ok
          (or_fail (find name (st.approvals proposer)) (message "no approval previously granted")) _
          h in
      let (left, el, h2) =
        >>=-eq-ok
          (or_fail (take_out level row.provided_approvals)
            (message "no approval previously granted"))
          _ h1 in
      let new : Approvals = record row {
        requested_approvals =
            row.requested_approvals ++ record { level = level; time = c.now } ∷ [];
        provided_approvals = left;
      } in
      (
        record {
          before = row;
          after = new;
          stored = ground arith;
          changed = ground (arith, find-store name name new (st.approvals proposer));
        },
        take_out-MovesOne level c.now row.provided_approvals row.requested_approvals left
            (ground arith),
      )

  -- An approval that goes through carries the level's authority and moves exactly one approval of
  -- that level, for every count of levels, from the requested ones of the proposal to the provided
  -- ones, whatever it does to the clock.
  pub approve-MovesOne :
      (c : Caller) (proposer name : ℕ) (level : Level) (hash : Option Bytes) (st st' : Tables)
      → approve host c proposer name level hash st ≡ ok st'
      → (c.has_level level ≡ true)
        × ((rows : Rows proposer name st st') × MovesOne level rows.before.requested_approvals
              rows.before.provided_approvals rows.after.requested_approvals
              rows.after.provided_approvals)
  unfolding approve
  approve-MovesOne c proposer name level hash st st' h =
      let (_, ea, h1) =
        >>=-eq-ok (demand (c.has_level level) (missing_authority level.actor)) _ h in
      let (row, er, h2) =
        >>=-eq-ok (or_fail (find name (st.proposals proposer)) (message "proposal not found")) _
          h1 in
      let (_, eh, h3) = >>=-eq-ok (check_hash host hash row) _ h2 in
      let (mid, em, h4) = >>=-eq-ok (provide host c proposer name level st) _ h3 in
      let same = start_clock-approvals c proposer name row mid st' h4 in
      let (rows, moves) = provide-Rows c proposer name level st mid em in
      (
        ground arith,
        (
          record {
            before = rows.before;
            after = rows.after;
            stored = rows.stored;
            changed = ap (λ a. find name (a proposer)) same ∙ rows.changed;
          },
          moves,
        ),
      )

  -- Taking an approval back needs the level's authority and moves exactly one approval of that
  -- level back from the provided ones to the requested ones.
  pub unapprove-MovesOne :
      (c : Caller) (proposer name : ℕ) (level : Level) (st st' : Tables)
      → unapprove host c proposer name level st ≡ ok st'
      → (c.has_level level ≡ true)
        × ((rows : Rows proposer name st st') × MovesOne level rows.before.provided_approvals
              rows.before.requested_approvals rows.after.provided_approvals
              rows.after.requested_approvals)
  unfolding unapprove
  unapprove-MovesOne c proposer name level st st' h =
      let (_, ea, h1) =
        >>=-eq-ok (demand (c.has_level level) (missing_authority level.actor)) _ h in
      let (mid, em, h2) = >>=-eq-ok (withdraw host c proposer name level st) _ h1 in
      let (row, er, h3) =
        >>=-eq-ok (or_fail (find name (mid.proposals proposer)) (message "proposal not found")) _
          h2 in
      let same = stop_clock-approvals proposer name row mid st' h3 in
      let (rows, moves) = withdraw-Rows c proposer name level st mid em in
      (
        ground arith,
        (
          record {
            before = rows.before;
            after = rows.after;
            stored = rows.stored;
            changed = ap (λ a. find name (a proposer)) same ∙ rows.changed;
          },
          moves,
        ),
      )
