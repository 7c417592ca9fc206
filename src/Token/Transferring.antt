-- ===== src/Token/Transferring.antt =====
-- `transfer` against the ledger (contracts/twig.token/src/actions/user.cpp).
use twig_system_contracts.Prelude.{
  ℕ, false, not, ltb, leb, length, ◌&&◌, some, List, [], String, ℤ, pos, pos_part, neg_part, ◌+ℤ◌,
  ◌≤ℤ◌, int_laws, ◌==◌, arith, ◌≡◌, refl, sym, subst, ap, ◌∙◌, ◌≢◌,
}
use twig_system_contracts.Chain.{
  MultiIndex, Table, find, store, find-store, AssetLib, Asset, Env, Pairs, ok, or_fail,
  require_auth, size, check, message, >>=-eq-ok,
}
use twig_system_contracts.Token.State.{Tables, Supplies, Account}
use twig_system_contracts.Token.Pairs.{transfer_loop}
use twig_system_contracts.Token.Accounts.{balance_of, put_balance}
use twig_system_contracts.Token.User.{transfer}
use twig_system_contracts.Token.Amounts.{amount_of, FromZero}
use twig_system_contracts.Token.Held.{held, IsFunded, held-store, store-IsFunded, held_part}
use twig_system_contracts.Token.TransferLoop.{
  moved, Shared, Passes, Passes-total, transfer_loop-Passes,
}
use twig_system_contracts.Token.Ledger.{IsSound, IsSound-some, BacksAny, Backs, put_balance-eq-ok}
use twig_system_contracts.Token.Supplying.{has}

-- Where `b` is within what is left when `a` is taken out, the two together are in range.
sum_in_range :
    (a b all rest : ℤ)
    → pos 0 ≤ℤ a
    → pos 0 ≤ℤ b
    → b ≤ℤ rest
    → rest +ℤ a ≡ all +ℤ pos 0
    → FromZero all
    → FromZero (a +ℤ b)
unfolding ◌+ℤ◌
sum_in_range a b all rest ha hb le e h = ground arith

module _ ⦃mi : MultiIndex⦄ ⦃lib : AssetLib⦄ where
  pub transfer-eq-ok :
      (e : Env) (from to : ℕ) (tokens : List Asset) (memo : String) (st : Tables)
      (r : Tables × List ℕ)
      → transfer e from to tokens memo st ≡ ok r
      → (row : Account) × (y : Pairs × Pairs) × (out : Account) × (find from st.accounts ≡ some row)
        × (transfer_loop tokens row.balance (balance_of (find to st.accounts)) ≡ ok y)
        × (out.balance ≡ y.1)
        × ((from == to) ≡ false)
        × (r.0 ≡ record st {
          accounts = store to out (store from (record row { balance = y.0 }) st.accounts);
        })
  unfolding transfer
  transfer-eq-ok e from to tokens memo st r h =
      let (_, _, h1) = >>=-eq-ok (require_auth e from) _ h in
      let (_, apart, h2) = >>=-eq-ok (check (not (from == to)) "cannot transfer to self") _ h1 in
      let (_, _, h3) = >>=-eq-ok (check (e.is_account to) "to account does not exist") _ h2 in
      let (_, _, h4) =
        >>=-eq-ok (check (leb (size memo) 256) "memo has more than 256 bytes") _ h3 in
      let (_, _, h5) =
        >>=-eq-ok (check (ltb 0 (length tokens) && ltb (length tokens) 100) "invalid tokens.size()")
          _ h4 in
      let (row, er, h6) =
        >>=-eq-ok (or_fail (find from st.accounts) (message "from account not found")) _ h5 in
      let (y, ey, h7) =
        >>=-eq-ok (transfer_loop tokens row.balance (balance_of (find to st.accounts))) _ h6 in
      let paid : Table Account = store from (record row { balance = y.0 }) st.accounts in
      let (t, et, h8) = >>=-eq-ok (put_balance (find to st.accounts) to y.1 paid) _ h7 in
      let (out, eo, eb) = put_balance-eq-ok (find to st.accounts) to y.1 paid t et in
      (row, y, out, ground arith, ey, eb, ground arith, ground arith)

  -- Two different accounts hold no more than all of them do.
  two_parts :
      (x : Supplies) (t : Table Account) (from to : ℕ)
      → Backs x t
      → (from == to) ≡ false
      → Shared (balance_of (find from t)) (balance_of (find to t))
  two_parts x t from to b ne s =
      let bare : Account = record { owner = from; balance = [] } in
      let t' = store from bare t in
      let funded : IsFunded t' = store-IsFunded from bare t b.funded (λ s. omega arith) in
      let same : find to t' ≡ find to t = ground (arith, find-store to from bare t) in
      let h = held-store s from bare t in
      let mine = held_part s from t b.funded in
      let theirs : (pos 0 ≤ℤ amount_of s (balance_of (find to t)))
          × (amount_of s (balance_of (find to t)) ≤ℤ held s t') =
        rw same at (held_part s to t' funded) in
      let all : FromZero (held s t) = rw (b.total s) (b.supplied.ranged s) in
      (mine.0, theirs.0, sum_in_range _ _ _ _ mine.0 theirs.0 theirs.1 h all)

  -- Both accounts are written with what the loop has left of them.
  written :
      (delta : ℕ → ℤ) (from to : ℕ) (t : Table Account) (paying out : Account)
      → (from == to) ≡ false
      → Passes delta (balance_of (find from t)) (balance_of (find to t)) paying.balance out.balance
      → IsFunded t
      → (IsFunded (store to out (store from paying t)))
        × ((s : ℕ) → held s (store to out (store from paying t)) ≡ held s t)
  written delta from to t paying out ne p funded = (
    store-IsFunded to out (store from paying t)
        (store-IsFunded from paying t funded (λ s. (p.shared s).0)) (λ s. (p.shared s).1),
    λ s.
        let same : find to (store from paying t) ≡ find to t =
          ground (arith, find-store to from paying t) in
        let h = held-store s from paying t in
        let h' : held s (store to out (store from paying t)) +ℤ amount_of s (balance_of (find to t))
            ≡ held s (store from paying t) +ℤ amount_of s out.balance =
          subst
            (λ o.
              held s (store to out (store from paying t)) +ℤ amount_of s (balance_of o)
              ≡ held s (store from paying t) +ℤ amount_of s out.balance)
            same (held-store s to out (store from paying t)) in
        let both = Passes-total delta _ _ _ _ p s in
        omega (
          int_laws,
          ap pos_part h,
          ap neg_part h,
          ap pos_part h',
          ap neg_part h',
          ap pos_part both,
          ap neg_part both,
        ),
  )

  -- The action has moved `delta` from one account to another, and nothing else.
  pub record TransferMoves (delta : ℕ → ℤ) (from to : ℕ) (st st' : Tables) : Type 0 where
    pub sound : IsSound st'
    pub supplies : st'.supplies ≡ st.supplies
    pub total : (s : ℕ) → held s st'.accounts ≡ held s st.accounts
    pub sender : (s : ℕ) → has s from st' +ℤ delta s ≡ has s from st
    pub receiver : (s : ℕ) → has s to st' ≡ has s to st +ℤ delta s
    pub others :
        (other : ℕ) → other ≢ from → other ≢ to → find other st'.accounts ≡ find other st.accounts

  -- On a sound ledger a `transfer` that goes through leaves the ledger sound and its supplies and the
  -- sum of all balances as they were. Of each symbol it takes what was asked for from the sender,
  -- gives it to the receiver, and changes no third account.
  pub transfer-TransferMoves :
      (e : Env) (from to : ℕ) (tokens : List Asset) (memo : String) (st : Tables)
      (r : Tables × List ℕ)
      → IsSound st
      → transfer e from to tokens memo st ≡ ok r
      → TransferMoves (λ s. moved s tokens) from to st r.0
  transfer-TransferMoves e from to tokens memo st r sound h =
      let (x, ex, b) = IsSound-some st sound in
      let (row, y, out, er, ey, eb, ne, es) = transfer-eq-ok e from to tokens memo st r h in
      let t = st.accounts in
      let paying : Account = record row { balance = y.0 } in
      let delta : ℕ → ℤ = λ s. moved s tokens in
      let sh : Shared row.balance (balance_of (find to t)) =
        subst (λ o. Shared (balance_of o) (balance_of (find to t))) er
          (two_parts x t from to b ne) in
      let p0 = transfer_loop-Passes tokens row.balance (balance_of (find to t)) y sh ey in
      let p : Passes delta (balance_of (find from t)) (balance_of (find to t)) y.0 out.balance =
        rw (er, eb) p0 in
      let (funded, total) = written delta from to t paying out ne p b.funded in
      rw es (record {
        sound =
            subst (λ o. BacksAny o (store to out (store from paying t))) (sym ex)
              (record { supplied = b.supplied; funded = funded; total = λ s. total s ∙ b.total s });
        supplies = refl;
        total = total;
        sender = λ s. ground (
          arith,
          find-store from to out (store from paying t),
          find-store from from paying t,
          p.lost s,
        );
        receiver = λ s. ground (arith, find-store to to out (store from paying t), p.gained s);
        others = λ other nf nt.
            ground (
              arith,
              find-store other to out (store from paying t),
              find-store other from paying t,
            );
      })
