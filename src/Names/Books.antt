-- ===== src/Names/Books.antt =====
-- For each name, what eosio.names owes is what has come in less what has gone out
-- (contracts/eosio.names/src/eosio.names.cpp).
use twig_system_contracts.Prelude.{
  ℕ, String, Bool, false, List, [], ◌∷◌, ◌++◌, pos, pos_part, neg_part, ◌+ℤ◌, int_laws, ◌==◌, arith,
  ◌≡◌, ◌≢◌, refl, ap, sym, subst, ==_self, Bool-cases, inl, inr,
}
use twig_system_contracts.Chain.{
  MultiIndex, AssetLib, NameLib, Env, Result, ok, err, ◌>>=◌, >>=-eq-ok, ok-injective, find-erase,
  state_after, noted, Send, Asset, Call,
}
use twig_system_contracts.Names.State.{Tables, token_account}
use twig_system_contracts.Names.Actions.{init, exec, cleanup}
use twig_system_contracts.Names.Escrow.{
  bid_memo, refund_memo, owed, value_in, bidname-OwesMore, bidrefund-owed,
}
use twig_system_contracts.Names.History.{
  Action, Log, brought, taken, came_in, went_out, act, run, Balances, Spares, AllSpare,
}

came_in-cons :
    (symbol n : ℕ) (step : Env × Action) (out : List Send) (log : Log)
    → came_in symbol n ((step, out) ∷ log)
      ≡ came_in symbol n ((step, out) ∷ []) +ℤ came_in symbol n log
unfolding came_in
came_in-cons symbol n step out log = omega int_laws

went_out-cons :
    (symbol n : ℕ) (step : Env × Action) (out : List Send) (log : Log)
    → went_out symbol n ((step, out) ∷ log)
      ≡ went_out symbol n ((step, out) ∷ []) +ℤ went_out symbol n log
unfolding went_out
went_out-cons symbol n step out log = omega int_laws

-- One transfer of the token contract.
abbrev payment : ℕ → ℕ → Asset → String → Send
payment from to tokens memo = record {
  actor = from;
  contract = token_account;
  call = Call.transfer_one from to tokens memo;
}

brought-payment :
    (symbol from to : ℕ) (tokens : Asset) (memo : String)
    → from ≢ to
    → (brought symbol to (payment from to tokens memo ∷ []) ≡ value_in symbol tokens +ℤ pos 0)
      × (brought symbol from (payment from to tokens memo ∷ []) ≡ pos 0)
unfolding brought
brought-payment symbol from to tokens memo apart =
    let other : (to == from) ≡ false = ground arith in
    (rw (==_self from, ==_self to) refl, rw (==_self from, other) (omega int_laws))

taken-payment :
    (symbol from to : ℕ) (tokens : Asset) (memo : String)
    → from ≢ to
    → (taken symbol from (payment from to tokens memo ∷ []) ≡ value_in symbol tokens +ℤ pos 0)
      × (taken symbol to (payment from to tokens memo ∷ []) ≡ pos 0)
unfolding taken
taken-payment symbol from to tokens memo apart =
    let other : (from == to) ≡ false = ground arith in
    (rw (==_self from) refl, rw (==_self from, other) (omega int_laws))

module _ ⦃mi : MultiIndex⦄ ⦃lib : AssetLib⦄ ⦃names : NameLib⦄ (exists : ℕ → Result (Unit {0})) where
  init-owed :
      (symbol n : ℕ) (e : Env) (destruct : Bool) (core : ℕ) (st st' : Tables)
      → init exists e destruct core st ≡ ok st'
      → owed symbol n st' ≡ owed symbol n st
  unfolding init owed
  init-owed symbol n e destruct core st st' h = ground arith

  exec-owed :
      (symbol n : ℕ) (e : Env) (st st' : Tables)
      → exec e st ≡ ok st'
      → owed symbol n st' ≡ owed symbol n st
  unfolding exec
  exec-owed symbol n e st st' h = absurd (ground arith)

  cleanup-owed :
      (symbol n : ℕ) (e : Env) (m : ℕ) (st st' : Tables)
      → n ≢ m
      → cleanup e m st ≡ ok st'
      → owed symbol n st' ≡ owed symbol n st
  unfolding cleanup owed
  cleanup-owed symbol n e m st st' ne h = ground (arith, find-erase n m st.namebids)

  -- An action that sends nothing and leaves what is owed.
  quiet-Balances :
      (symbol n : ℕ) (st : Tables) (step : Result Tables) (r : Tables × List Send)
      → (step >>= λ st'. ok (st', [])) ≡ ok r
      → ((st' : Tables) → step ≡ ok st' → owed symbol n st' ≡ owed symbol n st)
      → owed symbol n r.0 ≡ owed symbol n st
  quiet-Balances symbol n st step r h f =
      let (st', es, h1) = >>=-eq-ok step _ h in
      subst (λ (z : Tables × List Send). owed symbol n z.0 ≡ owed symbol n st) (ok-injective h1)
        (f st' es)

  act-Balances :
      (symbol n : ℕ) (e : Env) (a : Action) (st : Tables) (r : Tables × List Send)
      → Spares n (e, a)
      → act exists e a st ≡ ok r
      → Balances symbol n st (r.0, ((e, a), r.1) ∷ [])
  unfolding act came_in went_out
  act-Balances symbol n e (Action.inits destruct core) st r spares h =
      let same = quiet-Balances symbol n st _ r h (init-owed symbol n e destruct core st) in
      rw same refl
  act-Balances symbol n e Action.execs st r spares h =
      let same = quiet-Balances symbol n st _ r h (exec-owed symbol n e st) in rw same refl
  act-Balances symbol n e (Action.cleans_up m) st r spares h =
      let same =
        quiet-Balances symbol n st _ r h (λ st' hc. cleanup-owed symbol n e m st st' spares hc) in
      rw same refl
  act-Balances symbol n e (Action.bids bidder m bid) st r spares h =
      let (moves, out) = bidname-OwesMore symbol e bidder m bid st r h in
      elim (Bool-cases (n == m)) [
        | inl here ↦
            let same : n ≡ m = ground arith in
            let g = moves.more in
            let (paid, _) = brought-payment symbol bidder e.self bid (bid_memo m) spares in
            let (_, kept) = taken-payment symbol bidder e.self bid (bid_memo m) spares in
            rw (here, same, out, paid, kept) (omega (int_laws, ap pos_part g, ap neg_part g))
        | inr there ↦ let same = moves.others n (ground arith) in rw (there, same) (omega int_laws)
      ]
  act-Balances symbol n e (Action.refunds bidder m) st r spares h =
      let (row, found, out, g, others, gone) = bidrefund-owed symbol e bidder m st r h in
      elim (Bool-cases (n == m)) [
        | inl here ↦
            let same : n ≡ m = ground arith in
            let apart : e.self ≢ bidder = λ s. spares (sym s) in
            let (paid, _) = taken-payment symbol e.self bidder row.amount (refund_memo m) apart in
            let (_, kept) = brought-payment symbol e.self bidder row.amount (refund_memo m) apart in
            rw (here, same, out, paid, kept) (omega (int_laws, ap pos_part g, ap neg_part g))
        | inr there ↦ let same = others n (ground arith) in rw (there, same) (omega int_laws)
      ]

  run-step :
      (symbol n : ℕ) (e : Env) (a : Action) (st : Tables) (r : Result (Tables × List Send))
      (later : Tables × Log)
      → Spares n (e, a)
      → act exists e a st ≡ r
      → Balances symbol n (state_after st r) later
      → Balances symbol n st (later.0, noted (e, a) r ++ later.1)
  run-step symbol n e a st (err failure) later spares h ih = ih
  run-step symbol n e a st (ok r) later spares h ih =
      let now = act-Balances symbol n e a st r spares h in
      let i = came_in-cons symbol n (e, a) r.1 later.1 in
      let o = went_out-cons symbol n (e, a) r.1 later.1 in
      omega (
        int_laws,
        ap pos_part now,
        ap neg_part now,
        ap pos_part ih,
        ap neg_part ih,
        ap pos_part i,
        ap neg_part i,
        ap pos_part o,
        ap neg_part o,
      )

  -- Whatever the history, for every symbol and every name that is not cleaned up in it, where the
  -- contract itself neither bids nor is refunded: what the contract owes for the name at the end, in
  -- its high bid and its refunds, with what the name's bids and refunds took from the contract, is
  -- what it owed at the start with what they brought it. Only transfers of the token contract
  -- count, under the authority of the account they take from.
  pub run-Balances :
      (symbol n : ℕ) (acts : List (Env × Action)) (st : Tables)
      → AllSpare n acts
      → Balances symbol n st (run exists acts st)
  unfolding run came_in went_out
  run-Balances symbol n [] st spare = refl
  run-Balances symbol n ((e, a) ∷ rest) st (spares, spare) =
      let r = act exists e a st in
      run-step symbol n e a st r (run exists rest (state_after st r)) spares refl
        (run-Balances symbol n rest (state_after st r) spare)
