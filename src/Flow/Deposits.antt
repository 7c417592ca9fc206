-- ===== src/Flow/Deposits.antt =====
-- A transfer that the bank is told of, with its payouts, and the end of an epoch
-- (contracts/eosio.bank/src/eosio.bank.cpp).
use twig_system_contracts.Prelude.{
  ℕ, false, String, Option, some, List, [], ◌∷◌, ℤ, pos, pos_part, neg_part, ◌+ℤ◌, ◌≤ℤ◌, int_laws,
  ◌⊎◌, arith, ◌≡◌, ◌≢◌, refl, sym, ap, subst, Bool-cases, inl, inr,
}
use twig_system_contracts.Chain.{
  MultiIndex, Table, find, AssetLib, NameLib, Env, Asset, ok, >>=-eq-ok, ok-injective, Send,
  InRange,
}
use twig_system_contracts.Token.State.{Tables, twig_symbol}
use twig_system_contracts.Token.User.{transfer}
use twig_system_contracts.Token.Supplying.{has}
use twig_system_contracts.Token.TransferLoop.{moved}
use twig_system_contracts.Token.Amounts.{FromZero}
use twig_system_contracts.Token.Transferring.{transfer-TransferMoves, transfer-eq-ok}
use twig_system_contracts.System.State.{LuckyNumber}
use twig_system_contracts.Bank.State.{Vesting, Double, Ieee, token_account}
use twig_system_contracts.Bank.Actions.{token_deposit, is_ignored, onepoch, cleanup}
use twig_system_contracts.Bank.Vested.{paid}
use twig_system_contracts.Bank.Settling.{owed}
use twig_system_contracts.Bank.Solvency.{token_deposit-Settles, onepoch-Settles}
use twig_system_contracts.Flow.Delivery.{
  World, run_by, contains, notify, transfer_heard, transfer_all, onepoch_all, cleanup_all,
}
use twig_system_contracts.Flow.Owed.{vested-owed, cleanup-Lowers}
use twig_system_contracts.Flow.Payouts.{
  ArePayouts, token_deposit-ArePayouts, onepoch-ArePayouts, one-InRange,
}
use twig_system_contracts.Flow.Solvent.{Covers, has-FromZero, transfer-raises, deliver-Covers}

sums-InRange :
    (vested amount all : ℤ)
    → pos 0 ≤ℤ vested
    → pos 0 ≤ℤ amount
    → vested +ℤ amount ≤ℤ all
    → FromZero all
    → InRange (vested +ℤ amount)
unfolding ◌+ℤ◌
sums-InRange vested amount all a b le range = (ground arith, ground arith)

module _ ⦃mi : MultiIndex⦄ ⦃lib : AssetLib⦄ ⦃names : NameLib⦄ (double : Double) (bank : ℕ) where
  -- A deposit that the bank takes is of one asset, its own and in the core symbol.
  record IsTaken (e : Env) (lucky : Option LuckyNumber) (from to : ℕ) (tokens : List Asset)
      (memo : String) (t : Table Vesting) (r : Table Vesting × List Send) : Type 0 where
    q : Asset
    one : tokens ≡ q ∷ []
    mine : to ≡ bank
    core : q.symbol ≡ twig_symbol
    heard : is_ignored (run_by bank e) from to (q ∷ []) memo ≡ false
    done : token_deposit double (run_by bank e) lucky from to (q ∷ []) memo t ≡ ok r

  deposit_cases :
      (e : Env) (lucky : Option LuckyNumber) (from to : ℕ) (tokens : List Asset) (memo : String)
      (t : Table Vesting) (r : Table Vesting × List Send)
      → token_deposit double (run_by bank e) lucky from to tokens memo t ≡ ok r
      → (r ≡ (t, [])) ⊎ IsTaken e lucky from to tokens memo t r
  unfolding token_deposit
  deposit_cases e lucky from to [] memo t r h = inl (sym (ok-injective h))
  deposit_cases e lucky from to (q ∷ a ∷ more) memo t r h = inl (sym (ok-injective h))
  deposit_cases e lucky from to (q ∷ []) memo t r h =
      elim (Bool-cases (is_ignored (run_by bank e) from to (q ∷ []) memo)) [
        | inl ignored ↦ let h1 = rw ignored at h in inl (sym (ok-injective h1))
        | inr heard ↦ inr (record {
          q = q;
          one = refl;
          mine = ground arith;
          core = ground arith;
          heard = heard;
          done = h;
        })
      ]

  notify_cases :
      (accounts : List ℕ) (e : Env) (lucky : Option LuckyNumber) (from to : ℕ) (tokens : List Asset)
      (memo : String) (t : Table Vesting) (r : Table Vesting × List Send)
      → notify double bank accounts e lucky from to tokens memo t ≡ ok r
      → (r ≡ (t, [])) ⊎ IsTaken e lucky from to tokens memo t r
  unfolding notify
  notify_cases accounts e lucky from to tokens memo t r h =
      elim (Bool-cases (contains bank accounts)) [
        | inl told ↦ deposit_cases e lucky from to tokens memo t r (rw (told, notify) at h)
        | inr untold ↦ let h1 = rw (untold, notify) at h in inl (sym (ok-injective h1))
      ]

  core_moved : (q : Asset) → q.symbol ≡ twig_symbol → moved twig_symbol (q ∷ []) ≡ q.amount +ℤ pos 0
  core_moved q core = rw core refl

  -- What the bank takes in covers what a deposit adds to what it owes.
  taken-Covers :
      (e : Env) (lucky : Option LuckyNumber) (from to : ℕ) (tokens : List Asset) (memo : String)
      (w : World) (done : Tables × List ℕ) (r : Table Vesting × List Send)
      → Ieee double
      → Covers bank (pos 0) w
      → transfer (run_by token_account e) from to tokens memo w.ledger ≡ ok done
      → IsTaken e lucky from to tokens memo w.vestings r
      → Covers bank (paid r.1) (record { ledger = done.0; vestings = r.0 })
  taken-Covers e lucky from to tokens memo w done r ieee c h x =
      let q = x.q in
      let te = run_by token_account e in
      let h' : transfer te from bank (q ∷ []) memo w.ledger ≡ ok done = rw (x.one, x.mine) at h in
      let (row, y, out, er, ey, eb, ne, es) =
        transfer-eq-ok te from bank (q ∷ []) memo w.ledger done h' in
      let m = transfer-TransferMoves te from bank (q ∷ []) memo w.ledger done c.sound h' in
      let (sign, range) = one-InRange q _ _ y ey in
      let g = m.receiver twig_symbol in
      let core = core_moved q x.core in
      let b = c.backed in
      let room : (a : Asset) (k : ℕ) (v : Vesting)
          → ◌≡◌ {A = List Asset} (q ∷ []) (a ∷ [])
          → find k w.vestings ≡ some v
          → InRange (v.vested.amount +ℤ a.amount) =
        λ a k v ea there.
          let same : q ≡ a = cc in
          let part = vested-owed k v w.vestings c.fair there in
          let all = has-FromZero twig_symbol bank done.0 m.sound in
          rw (← same) (
            sums-InRange v.vested.amount q.amount (has twig_symbol bank done.0)
              (c.fair k v there).vested_sign sign
              (omega (int_laws, ap pos_part g, ap neg_part g, ap pos_part core, ap neg_part core))
              all) in
      let settles =
        (token_deposit-Settles double (run_by bank e) lucky from to (q ∷ []) memo w.vestings r ieee
          c.fair (λ a ea. let same : q ≡ a = cc in rw (← same) (sign, range)) room x.done).0 in
      let balanced : owed r.0 +ℤ paid r.1 ≡ owed w.vestings +ℤ q.amount =
        let g0 = settles.balanced in rw x.heard at g0 in
      record {
        sound = m.sound;
        fair = settles.all_fair;
        backed = omega (
          int_laws,
          ap pos_part g,
          ap neg_part g,
          ap pos_part core,
          ap neg_part core,
          ap pos_part balanced,
          ap neg_part balanced,
        );
      }

  -- Without a deposit the bank loses nothing by the transfer of another.
  passed-Covers :
      (e : Env) (from to : ℕ) (tokens : List Asset) (memo : String) (w : World)
      (done : Tables × List ℕ)
      → bank ≢ from
      → Covers bank (pos 0) w
      → transfer (run_by token_account e) from to tokens memo w.ledger ≡ ok done
      → Covers bank (pos 0) (record w { ledger = done.0 })
  passed-Covers e from to tokens memo w done ne c h =
      let te = run_by token_account e in
      let m = transfer-TransferMoves te from to tokens memo w.ledger done c.sound h in
      let up = transfer-raises te from to tokens memo w.ledger done c.sound h twig_symbol bank ne in
      let b = c.backed in record { sound = m.sound; fair = c.fair; backed = omega int_laws }

  pub transfer_heard-Covers :
      (e : Env) (lucky : Option LuckyNumber) (from to : ℕ) (tokens : List Asset) (memo : String)
      (w : World) (r : World × List Send)
      → Ieee double
      → bank ≢ from
      → Covers bank (pos 0) w
      → transfer_heard double bank e lucky from to tokens memo w ≡ ok r
      → ArePayouts bank r.1 × Covers bank (paid r.1) r.0
  unfolding transfer_heard paid
  transfer_heard-Covers e lucky from to tokens memo w r ieee ne c h =
      let te = run_by token_account e in
      let (done, ed, h1) = >>=-eq-ok (transfer te from to tokens memo w.ledger) _ h in
      let (told, et, h2) =
        >>=-eq-ok (notify double bank done.1 e lucky from to tokens memo w.vestings) _ h1 in
      subst (λ (z : World × List Send). ArePayouts bank z.1 × Covers bank (paid z.1) z.0)
        (ok-injective h2)
        (elim (notify_cases done.1 e lucky from to tokens memo w.vestings told et) [
          | inl quiet ↦ rw quiet (tt, passed-Covers e from to tokens memo w done ne c ed)
          | inr x ↦ (
            token_deposit-ArePayouts double (run_by bank e) lucky from to (x.q ∷ []) memo w.vestings
                told x.done,
            taken-Covers e lucky from to tokens memo w done told ieee c ed x,
          )
        ])

  -- Where the numbers follow IEEE 754 and the bank has what it owes: a transfer that another account
  -- sends, and that goes through with the bank's notification and all its payouts, leaves the ledger
  -- sound, the vesting rows fair and the bank with what it owes.
  pub transfer_all-Covers :
      (depth : ℕ) (e : Env) (lucky : Option LuckyNumber) (from to : ℕ) (tokens : List Asset)
      (memo : String) (w w' : World)
      → Ieee double
      → bank ≢ from
      → Covers bank (pos 0) w
      → transfer_all double bank depth e lucky from to tokens memo w ≡ ok w'
      → Covers bank (pos 0) w'
  unfolding transfer_all
  transfer_all-Covers depth e lucky from to tokens memo w w' ieee ne c h =
      let (heard, eh, h1) =
        >>=-eq-ok (transfer_heard double bank e lucky from to tokens memo w) _ h in
      let (out, c') = transfer_heard-Covers e lucky from to tokens memo w heard ieee ne c eh in
      deliver-Covers double bank depth e lucky heard.1 heard.0 w' out c' h1

  -- The same of the end of an epoch.
  pub onepoch_all-Covers :
      (depth : ℕ) (e : Env) (epoch : ℕ) (lucky : Option LuckyNumber) (w w' : World)
      → Covers bank (pos 0) w
      → onepoch_all double bank depth e epoch lucky w ≡ ok w'
      → Covers bank (pos 0) w'
  unfolding onepoch_all
  onepoch_all-Covers depth e epoch lucky w w' c h =
      let (done, ed, h1) = >>=-eq-ok (onepoch (run_by bank e) epoch lucky w.vestings) _ h in
      let settles = (onepoch-Settles (run_by bank e) epoch lucky w.vestings done c.fair ed).0 in
      let out = onepoch-ArePayouts (run_by bank e) epoch lucky w.vestings done ed in
      let g = settles.balanced in
      let b = c.backed in
      let c' : Covers bank (paid done.1) (record w { vestings = done.0 }) = record {
        sound = c.sound;
        fair = settles.all_fair;
        backed = omega (int_laws, ap pos_part g, ap neg_part g);
      } in
      deliver-Covers double bank depth e lucky done.1 (record w { vestings = done.0 }) w' out c' h1

  pub cleanup_all-Covers :
      (e : Env) (w w' : World)
      → Covers bank (pos 0) w
      → cleanup_all double bank e w ≡ ok w'
      → Covers bank (pos 0) w'
  unfolding cleanup_all
  cleanup_all-Covers e w w' c h =
      let (left, el, h1) = >>=-eq-ok (cleanup (run_by bank e) w.vestings) _ h in
      let (fair, less) = cleanup-Lowers (run_by bank e) w.vestings left c.fair el in
      let b = c.backed in
      subst (Covers bank (pos 0)) (ok-injective h1)
        (record { sound = c.sound; fair = fair; backed = omega int_laws })
