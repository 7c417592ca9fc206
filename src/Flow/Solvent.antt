-- ===== src/Flow/Solvent.antt =====
-- The bank can pay what it owes: one transfer, its notification and its payouts
-- (contracts/eosio.bank/src/eosio.bank.cpp, contracts/twig.token/src/actions/user.cpp).
use twig_system_contracts.Prelude.{
  ℕ, zero, suc, true, String, Option, List, [], ◌∷◌, ℤ, pos, pos_part, neg_part, ◌+ℤ◌, ◌≤ℤ◌,
  int_laws, ◌==◌, arith, ◌≡◌, ◌≢◌, refl, sym, ◌∙◌, ap, subst, Bool-cases, inl, inr,
}
use twig_system_contracts.Chain.{
  MultiIndex, Table, AssetLib, NameLib, Env, Asset, ok, refused, >>=-eq-ok, ok-injective, demand,
  Send,
}
use twig_system_contracts.Token.State.{Tables, twig_symbol}
use twig_system_contracts.Token.User.{transfer}
use twig_system_contracts.Token.Held.{held, held_part}
use twig_system_contracts.Token.Ledger.{IsSound, IsSound-some}
use twig_system_contracts.Token.Supplying.{has}
use twig_system_contracts.Token.TransferLoop.{moved}
use twig_system_contracts.Token.Transferring.{transfer-TransferMoves, transfer-eq-ok}
use twig_system_contracts.Token.Amounts.{FromZero}
use twig_system_contracts.System.State.{LuckyNumber}
use twig_system_contracts.Bank.State.{Vesting, Double, token_account}
use twig_system_contracts.Bank.Actions.{token_deposit, is_ignored}
use twig_system_contracts.Bank.Vested.{paid, taken_by}
use twig_system_contracts.Bank.Settling.{owed, AllFair}
use twig_system_contracts.Flow.Delivery.{
  World, run_by, sent_by, contains, notify, transfer_heard, receive, deliver,
}
use twig_system_contracts.Flow.Payouts.{IsPayout, ArePayouts, moved-sign, moved-one}

part_in_range : (a all : ℤ) → pos 0 ≤ℤ a → a ≤ℤ all → FromZero all → FromZero a
part_in_range a all sign part range = ground arith

module _ ⦃mi : MultiIndex⦄ where
  -- The ledger is sound, the vesting rows are fair, and the bank has what it owes on all of them
  -- and, besides, `pending`.
  pub record Covers (bank : ℕ) (pending : ℤ) (w : World) : Type 0 where
    pub sound : IsSound w.ledger
    pub fair : AllFair w.vestings
    pub backed : owed w.vestings +ℤ pending ≤ℤ has twig_symbol bank w.ledger

  -- What an account has of a symbol lies between zero and 2^62.
  pub has-FromZero : (s owner : ℕ) (st : Tables) → IsSound st → FromZero (has s owner st)
  has-FromZero s owner st sound =
      let (x, ex, b) = IsSound-some st sound in
      let (sign, part) = held_part s owner st.accounts b.funded in
      part_in_range (has s owner st) (held s st.accounts) sign part
        (rw (b.total s) (b.supplied.ranged s))

  -- A transfer that goes through, by what it does to the balance of one account.
  module _ ⦃lib : AssetLib⦄ (e : Env) (from to : ℕ) (tokens : List Asset) (memo : String)
      (st : Tables) (r : Tables × List ℕ) (sound : IsSound st)
      (h : transfer e from to tokens memo st ≡ ok r) where
    transfer-sign : (s : ℕ) → pos 0 ≤ℤ moved s tokens
    transfer-sign s =
        let (row, y, out, er, ey, eb, ne, es) = transfer-eq-ok e from to tokens memo st r h in
        moved-sign s tokens _ _ y ey

    -- Who does not send does not lose.
    pub transfer-raises : (s other : ℕ) → other ≢ from → has s other st ≤ℤ has s other r.0
    transfer-raises s other ne =
        let m = transfer-TransferMoves e from to tokens memo st r sound h in
        let sign = transfer-sign s in
        elim (Bool-cases (other == to)) [
          | inl here ↦
              let same : other ≡ to = ground arith in
              rw (same, m.receiver s) (omega (int_laws, sign))
          | inr there ↦ rw (m.others other ne (ground arith)) (omega int_laws)
        ]

  -- A payout of the bank takes its amount, at most, and the bank ignores the notification.
  module _ ⦃lib : AssetLib⦄ ⦃names : NameLib⦄ (double : Double) (bank : ℕ) where
    own_transfer-ignored :
        (e : Env) (lucky : Option LuckyNumber) (to : ℕ) (a : Asset) (memo : String)
        (t : Table Vesting) (r : Table Vesting × List Send) (accounts : List ℕ)
        → notify double bank accounts e lucky bank to (a ∷ []) memo t ≡ ok r
        → r ≡ (t, [])
    unfolding notify token_deposit
    own_transfer-ignored e lucky to a memo t r accounts h =
        let own : is_ignored (run_by bank e) bank to (a ∷ []) memo ≡ true = ground arith in
        elim (Bool-cases (contains bank accounts)) [
          | inl told ↦ let h1 = rw (told, notify, own) at h in sym (ok-injective h1)
          | inr untold ↦ let h1 = rw (untold, notify) at h in sym (ok-injective h1)
        ]

    payout-Covers :
        (e : Env) (lucky : Option LuckyNumber) (to : ℕ) (a : Asset) (memo : String) (w : World)
        (r : World × List Send) (pending : ℤ)
        → Covers bank (a.amount +ℤ pending) w
        → transfer_heard double bank e lucky bank to (a ∷ []) memo w ≡ ok r
        → (r.1 ≡ []) × Covers bank pending r.0
    unfolding transfer_heard
    payout-Covers e lucky to a memo w r pending c h =
        let te = run_by token_account e in
        let (done, ed, h1) = >>=-eq-ok (transfer te bank to (a ∷ []) memo w.ledger) _ h in
        let (told, et, h2) =
          >>=-eq-ok (notify double bank done.1 e lucky bank to (a ∷ []) memo w.vestings) _ h1 in
        let same = own_transfer-ignored e lucky to a memo w.vestings told done.1 et in
        let m = transfer-TransferMoves te bank to (a ∷ []) memo w.ledger done c.sound ed in
        let (row, y, out, er, ey, eb, ne, es) =
          transfer-eq-ok te bank to (a ∷ []) memo w.ledger done ed in
        let most = moved-one twig_symbol a _ _ y ey in
        let g = m.sender twig_symbol in
        let b = c.backed in
        let er' : r ≡ (record { ledger = done.0; vestings = w.vestings }, []) = cc in
        rw er' (
          refl,
          record {
            sound = m.sound;
            fair = c.fair;
            backed = omega (int_laws, ap pos_part g, ap neg_part g);
          },
        )

    pub receive-Covers :
        (e : Env) (lucky : Option LuckyNumber) (s : Send) (w : World) (r : World × List Send)
        (pending : ℤ)
        → IsPayout bank s
        → Covers bank (taken_by s.call +ℤ pending) w
        → receive double bank e lucky s.call w ≡ ok r
        → (r.1 ≡ []) × Covers bank pending r.0
    unfolding receive
    receive-Covers e lucky s w r pending (to, a, memo, es) c h =
        payout-Covers e lucky to a memo w r pending (rw es at c) (rw (es, receive) at h)

    pub deliver-nil :
        (depth : ℕ) (e : Env) (lucky : Option LuckyNumber) (w : World)
        → deliver double bank depth e lucky [] w ≡ ok w
    unfolding deliver
    deliver-nil zero e lucky w = refl
    deliver-nil (suc depth) e lucky w = refl

    -- Payouts that are covered leave the bank solvent.
    pub deliver-Covers :
        (depth : ℕ) (e : Env) (lucky : Option LuckyNumber) (sends : List Send) (w w' : World)
        → ArePayouts bank sends
        → Covers bank (paid sends) w
        → deliver double bank depth e lucky sends w ≡ ok w'
        → Covers bank (pos 0) w'
    unfolding deliver paid
    deliver-Covers depth e lucky [] w w' all c h =
        subst (Covers bank (pos 0)) (ok-injective (sym (deliver-nil depth e lucky w) ∙ h)) c
    deliver-Covers zero e lucky (s ∷ rest) w w' all c h = absurd (ground arith)
    deliver-Covers (suc depth) e lucky (s ∷ rest) w w' (out, all) c h =
        let (_, _, h1) = >>=-eq-ok (demand (s.contract == token_account) refused) _ h in
        let (one, eo, h2) =
          >>=-eq-ok (receive double bank (sent_by s.actor e) lucky s.call w) _ h1 in
        let (quiet, c') = receive-Covers (sent_by s.actor e) lucky s w one (paid rest) out c eo in
        let (inner, ei, h3) = >>=-eq-ok (deliver double bank depth e lucky one.1 one.0) _ h2 in
        let ei' : deliver double bank depth e lucky [] one.0 ≡ ok inner = rw quiet at ei in
        let same = ok-injective (sym (deliver-nil depth e lucky one.0) ∙ ei') in
        deliver-Covers (suc depth) e lucky rest inner w' all
          (subst (Covers bank (paid rest)) same c') h3
