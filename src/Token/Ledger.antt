-- ===== src/Token/Ledger.antt =====
-- The ledger of twig.token: the supplies are what the accounts hold. Every action that moves tokens
-- keeps that, and moves exactly what it says.
use twig_system_contracts.Prelude.{
  ℕ, Option, none, some, ℤ, pos_part, neg_part, ◌+ℤ◌, int_laws, arith, ◌≡◌, refl, ap,
}
use twig_system_contracts.Chain.{MultiIndex, Table, find, store, Pairs, ok}
use twig_system_contracts.Token.State.{Tables, Supplies, Account}
use twig_system_contracts.Token.Accounts.{balance_of, put_balance}
use twig_system_contracts.Token.Amounts.{amount_of}
use twig_system_contracts.Token.Effects.{IsSupplied, IsPart, Moves}
use twig_system_contracts.Token.Held.{held, IsFunded, held-store, store-IsFunded, held_part}

module _ ⦃mi : MultiIndex⦄ where
  -- The supplies are in order, no balance is negative, and of each symbol the accounts hold
  -- exactly the supply.
  pub record Backs (x : Supplies) (t : Table Account) : Type 0 where
    pub supplied : IsSupplied x
    pub funded : IsFunded t
    pub total : (s : ℕ) → held s t ≡ amount_of s x.supply

  abbrev pub BacksAny : Option Supplies → Table Account → Type 0
  BacksAny none t = ⊥
  BacksAny (some x) t = Backs x t

  -- The supplies are set, and are what the accounts hold.
  abbrev pub IsSound : Tables → Type 0
  IsSound st = BacksAny st.supplies st.accounts

  -- A balance is a part of a supply that backs it.
  pub balance-IsPart :
      (x : Supplies) (t : Table Account) (owner : ℕ)
      → Backs x t
      → IsPart (balance_of (find owner t)) x
  balance-IsPart x t owner b s = rw (← b.total s) (held_part s owner t b.funded)

  -- A balance and the supplies that move together leave the ledger sound.
  pub Moves-Backs :
      (delta : ℕ → ℤ) (x : Supplies) (t : Table Account) (owner : ℕ) (y : Supplies × Pairs)
      (row : Account)
      → Backs x t
      → Moves delta (x, balance_of (find owner t)) y
      → row.balance ≡ y.1
      → Backs y.0 (store owner row t)
  Moves-Backs delta x t owner y row b m e = record {
    supplied = m.sound;
    funded = store-IsFunded owner row t b.funded (λ s. rw e (m.part s).0);
    total = λ s.
        let h = held-store s owner row t in
        let h' : held s (store owner row t) +ℤ amount_of s (balance_of (find owner t))
            ≡ amount_of s x.supply +ℤ (amount_of s (balance_of (find owner t)) +ℤ delta s) =
          rw (← m.balanced s, ← e, ← b.total s) h in
        rw (m.supplied s) (omega (int_laws, ap pos_part h', ap neg_part h'));
  }

  pub put_balance-eq-ok :
      (itr : Option Account) (owner : ℕ) (balance : Pairs) (t t' : Table Account)
      → put_balance itr owner balance t ≡ ok t'
      → (row : Account) × (t' ≡ store owner row t) × (row.balance ≡ balance)
  unfolding put_balance
  put_balance-eq-ok none owner balance t t' h =
      (record { owner = owner; balance = balance }, ground arith, refl)
  put_balance-eq-ok (some row) owner balance t t' h =
      (record row { balance = balance }, ground arith, refl)

  -- A sound ledger has its supplies set.
  pub IsSound-some :
      (st : Tables) → IsSound st → (x : Supplies) × (st.supplies ≡ some x) × Backs x st.accounts
  IsSound-some st sound = from_option st.supplies refl sound
    where
      from_option :
          (o : Option Supplies)
          → st.supplies ≡ o
          → BacksAny o st.accounts
          → (x : Supplies) × (st.supplies ≡ some x) × Backs x st.accounts
      from_option none e b = absurd b
      from_option (some x) e b = (x, e, b)
