-- ===== src/Bank/Settling.antt =====
-- What the bank owes in all, after the loop of onepoch and after a deposit
-- (contracts/eosio.bank/src/eosio.bank.cpp).
use twig_system_contracts.Prelude.{
  ℕ, suc, none, some, List, [], ◌∷◌, ◌++◌, ℤ, pos, pos_part, neg_part, ◌+ℤ◌, ◌-ℤ◌, ◌≤ℤ◌, int_laws,
  lookup, AscendingFrom, lookup_below, ◌<◌, ◌==◌, arith, ◌≡◌, ◌∙◌, refl, ap, subst, Bool-cases,
  Option-cases, inl, inr,
}
use twig_system_contracts.Chain.{
  MultiIndex, Table, find, rows, store, find-store, find-rows, rows-IsAscending, AssetLib,
  make_asset, NameLib, Env, Asset, ok, >>=-eq-ok, ok-injective, Send, InRange, sum, sum-store,
}
use twig_system_contracts.System.State.{LuckyNumber}
use twig_system_contracts.Bank.State.{Vesting, Double, Ieee}
use twig_system_contracts.Bank.Actions.{deposit_row, finish_row, finish_loop, deposit, first_row}
use twig_system_contracts.Bank.Recipients.{AllRowsFair}
use twig_system_contracts.Bank.Vested.{
  IsFair, Accounted, due, paid, deposit_row-due, finish_row-due,
}

paid-append : (a b : List Send) → paid (a ++ b) ≡ paid a +ℤ paid b
unfolding paid
paid-append [] b = omega int_laws
paid-append (s ∷ a) b = let ih = paid-append a b in omega (int_laws, ap pos_part ih, ap neg_part ih)

some_inj : {a b : Vesting} → some a ≡ some b → a ≡ b
some_inj h = cc

module _ ⦃mi : MultiIndex⦄ where
  -- What the bank owes on all rows.
  unfoldable pub owed : Table Vesting → ℤ
  owed t = sum due t

  abbrev pub AllFair : Table Vesting → Type 0
  AllFair t = (k : ℕ) (row : Vesting) → find k t ≡ some row → IsFair row

  -- The listed rows stand in the table.
  abbrev pub Found : List (ℕ × Vesting) → Table Vesting → Type 0
  Found [] t = Unit
  Found ((k, row) ∷ m) t = (find k t ≡ some row) × Found m t

  Found-store :
      (n k : ℕ) (row : Vesting) (m : List (ℕ × Vesting)) (t : Table Vesting)
      → AscendingFrom n m
      → k < n
      → Found m t
      → Found m (store k row t)
  Found-store n k row [] t up below f = tt
  Found-store n k row ((j, r) ∷ m) t up below (f, fs) =
      (ground (arith, find-store j k row t), Found-store (suc j) k row m t up.1 (ground arith) fs)

  lookup-Found :
      (n : ℕ) (m : List (ℕ × Vesting)) (t : Table Vesting)
      → AscendingFrom n m
      → ((k : ℕ) (row : Vesting) → lookup k m ≡ some row → find k t ≡ some row)
      → Found m t
  lookup-Found n [] t up h = tt
  lookup-Found n ((j, r) ∷ m) t up h = (
    h j r (ground arith),
    lookup-Found (suc j) m t up.1
        (λ k row e. h k row (ground (arith, lookup_below (suc j) k m up.1))),
  )

  pub rows-Found : (t : Table Vesting) → Found (rows t) t
  rows-Found t = lookup-Found 0 (rows t) t (rows-IsAscending t) (λ k row e. find-rows k t ∙ e)

  pub AllFair-store :
      (k : ℕ) (row : Vesting) (t : Table Vesting) → AllFair t → IsFair row → AllFair (store k row t)
  AllFair-store k row t fair new j r h = elim (Bool-cases (j == k)) [
    | inl here ↦
        let e : some row ≡ some r = ground (arith, find-store j k row t) in
        subst IsFair (some_inj e) new
    | inr other ↦ fair j r (ground (arith, find-store j k row t))
  ]

  pub Found-fair :
      (m : List (ℕ × Vesting)) (t : Table Vesting) → AllFair t → Found m t → AllRowsFair m
  Found-fair [] t fair f = tt
  Found-fair ((k, row) ∷ m) t fair (there, f) = (fair k row there, Found-fair m t fair f)

  -- The rows stay fair, and what is owed has risen by `gain`, less what is paid out, which is not
  -- negative.
  pub record Settles (t : Table Vesting) (gain : ℤ) (t' : Table Vesting) (sent : List Send)
      : Type 0 where
    pub all_fair : AllFair t'
    pub balanced : owed t' +ℤ paid sent ≡ owed t +ℤ gain
    pub sign : pos 0 ≤ℤ paid sent

  -- A row that is accounted for settles its table.
  row-Settles :
      (k : ℕ) (row row' : Vesting) (gain : ℤ) (t : Table Vesting) (sent : List Send)
      → AllFair t
      → find k t ≡ some row
      → Accounted row gain row' sent
      → Settles t gain (store k row' t) sent
  unfolding owed
  row-Settles k row row' gain t sent fair there acc =
      let g0 = sum-store due k row' t in
      let g : sum due (store k row' t) +ℤ due row ≡ sum due t +ℤ due row' = rw there at g0 in
      let b = acc.balanced in
      record {
        all_fair = AllFair-store k row' t fair acc.fair;
        balanced = omega (int_laws, ap pos_part g, ap neg_part g, ap pos_part b, ap neg_part b);
        sign = acc.sign;
      }

  emplace-Settles :
      (k : ℕ) (row : Vesting) (gain : ℤ) (t : Table Vesting)
      → AllFair t
      → find k t ≡ none
      → IsFair row
      → due row ≡ gain
      → Settles t gain (store k row t) []
  unfolding owed paid
  emplace-Settles k row gain t fair new row_fair d =
      let g0 = sum-store due k row t in
      let g : sum due (store k row t) +ℤ pos 0 ≡ sum due t +ℤ due row = rw new at g0 in
      record {
        all_fair = AllFair-store k row t fair row_fair;
        balanced = omega (int_laws, ap pos_part g, ap neg_part g, ap pos_part d, ap neg_part d);
        sign = omega arith;
      }

  Settles-append :
      (t t' t'' : Table Vesting) (first then_sent : List Send)
      → Settles t (pos 0) t' first
      → Settles t' (pos 0) t'' then_sent
      → Settles t (pos 0) t'' (first ++ then_sent)
  Settles-append t t' t'' first then_sent a b =
      let g = a.balanced in
      let h = b.balanced in
      let p = paid-append first then_sent in
      let i = a.sign in
      let j = b.sign in
      record {
        all_fair = b.all_fair;
        balanced = omega (
          int_laws,
          ap pos_part g,
          ap neg_part g,
          ap pos_part h,
          ap neg_part h,
          ap pos_part p,
          ap neg_part p,
        );
        sign = omega (int_laws, ap pos_part p, ap neg_part p);
      }

  pub nothing-Settles : (t : Table Vesting) → AllFair t → Settles t (pos 0) t []
  unfolding paid
  nothing-Settles t fair = record { all_fair = fair; balanced = refl; sign = omega arith }

  module _ ⦃lib : AssetLib⦄ where
    pub finish_loop-Settles :
        (n : ℕ) (e : Env) (epoch : ℕ) (m : List (ℕ × Vesting)) (t : Table Vesting)
        (r : Table Vesting × List Send)
        → AscendingFrom n m
        → Found m t
        → AllFair t
        → finish_loop e epoch m t ≡ ok r
        → Settles t (pos 0) r.0 r.1
    unfolding finish_loop
    finish_loop-Settles n e epoch [] t r up f fair h =
        subst (λ z. Settles t (pos 0) z.0 z.1) (ok-injective h) (nothing-Settles t fair)
    finish_loop-Settles n e epoch ((k, row) ∷ m) t r up (there, others) fair h =
        let (changed, ec, h1) = >>=-eq-ok (finish_row e epoch row) _ h in
        let (rest, er, h2) = >>=-eq-ok (finish_loop e epoch m (store k changed.0 t)) _ h1 in
        let acc = finish_row-due e epoch row changed (fair k row there) ec in
        let now = row-Settles k row changed.0 (pos 0) t changed.1 fair there acc in
        let later =
          finish_loop-Settles (suc k) e epoch m (store k changed.0 t) rest up.1
            (Found-store (suc k) k changed.0 m t up.1 (omega arith) others) now.all_fair er in
        subst (λ z. Settles t (pos 0) z.0 z.1) (ok-injective h2)
          (Settles-append t (store k changed.0 t) rest.0 changed.1 rest.1 now later)

    first_row-due :
        (lucky : LuckyNumber) (producer : ℕ) (quantity : Asset) (row : Vesting)
        → pos 0 ≤ℤ quantity.amount
        → InRange quantity.amount
        → first_row lucky producer quantity ≡ ok row
        → IsFair row × (due row ≡ quantity.amount)
    unfolding due ◌+ℤ◌ ◌-ℤ◌
    first_row-due lucky producer quantity row sign range h =
        let (zero, ez, h1) = >>=-eq-ok (make_asset (pos 0) quantity.symbol) _ h in
        let fields = lib.make_fields (pos 0) quantity.symbol zero ez in
        let none_yet : zero.amount ≡ pos 0 = cc in
        subst (λ (z : Vesting). IsFair z × (due z ≡ quantity.amount)) (ok-injective h1)
          (
            record {
              vested_sign = sign;
              vested_range = range;
              unvested_sign = ground arith;
              part = ground arith;
              total_sign = ground arith;
              total_range = ground arith;
            },
            ground arith,
          )

    -- A deposit raises what is owed on all rows by its amount less what it pays out.
    pub deposit-Settles :
        ⦃names : NameLib⦄ (double : Double) (e : Env) (lucky : LuckyNumber) (producer : ℕ)
        (quantity : Asset) (t : Table Vesting) (r : Table Vesting × List Send)
        → Ieee double
        → AllFair t
        → pos 0 ≤ℤ quantity.amount
        → InRange quantity.amount
        → ((row : Vesting)
            → find producer t ≡ some row
            → InRange (row.vested.amount +ℤ quantity.amount))
        → deposit double e lucky producer quantity t ≡ ok r
        → Settles t quantity.amount r.0 r.1
    unfolding deposit owed
    deposit-Settles double e lucky producer quantity t r ieee fair sign range room h =
        elim (Option-cases (find producer t)) [
          | inl new ↦
              let h1 = rw (new, deposit) at h in
              let (row, er, h2) = >>=-eq-ok (first_row lucky producer quantity) _ h1 in
              let (row_fair, row_due) = first_row-due lucky producer quantity row sign range er in
              subst (λ z. Settles t quantity.amount z.0 z.1) (ok-injective h2)
                (emplace-Settles producer row quantity.amount t fair new row_fair row_due)
          | inr (row, there) ↦
              let h1 = rw (there, deposit) at h in
              let (changed, ec, h2) = >>=-eq-ok (deposit_row double e lucky quantity row) _ h1 in
              let acc =
                deposit_row-due double e lucky quantity row changed ieee (fair producer row there)
                  sign (room row there) ec in
              subst (λ z. Settles t quantity.amount z.0 z.1) (ok-injective h2)
                (row-Settles producer row changed.0 quantity.amount t changed.1 fair there acc)
        ]
