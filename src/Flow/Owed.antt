-- ===== src/Flow/Owed.antt =====
-- What eosio.bank owes on one row is a part of what it owes in all, and erased rows lower it.
use twig_system_contracts.Prelude.{
  ℕ, some, List, [], ◌∷◌, pos, pos_part, neg_part, ◌+ℤ◌, ◌≤ℤ◌, int_laws, ◌==◌, arith, ◌≡◌, ap,
  subst, Bool-cases, Option-cases, inl, inr,
}
use twig_system_contracts.Chain.{
  MultiIndex, AssetLib, Table, find, rows, erase, find-erase, sum, sum_in, sum-erase, Env, ok,
  >>=-eq-ok, ok-injective, require_auth,
}
use twig_system_contracts.Bank.State.{Vesting}
use twig_system_contracts.Bank.Actions.{cleanup, erase_rows}
use twig_system_contracts.Bank.Vested.{IsFair, due}
use twig_system_contracts.Bank.Settling.{owed, AllFair, Found, rows-Found}

due-sign : (row : Vesting) → IsFair row → pos 0 ≤ℤ due row
unfolding due
due-sign row fair = let a = fair.vested_sign in let b = fair.part in omega int_laws

vested_part : (row : Vesting) → IsFair row → row.vested.amount ≤ℤ due row
unfolding due
vested_part row fair = let a = fair.part in omega int_laws

module _ ⦃mi : MultiIndex⦄ where
  sum_in_due-sign :
      (m : List (ℕ × Vesting)) (t : Table Vesting) → AllFair t → Found m t → pos 0 ≤ℤ sum_in due m
  unfolding sum_in
  sum_in_due-sign [] t fair there = omega arith
  sum_in_due-sign ((k, row) ∷ m) t fair (here, later) =
      omega (int_laws, due-sign row (fair k row here), sum_in_due-sign m t fair later)

  pub owed-sign : (t : Table Vesting) → AllFair t → pos 0 ≤ℤ owed t
  unfolding owed sum
  owed-sign t fair = sum_in_due-sign (rows t) t fair (rows-Found t)

  AllFair-erase : (k : ℕ) (t : Table Vesting) → AllFair t → AllFair (erase k t)
  AllFair-erase k t fair j row h = elim (Bool-cases (j == k)) [
    | inl here ↦ absurd (ground (arith, find-erase j k t))
    | inr other ↦ fair j row (ground (arith, find-erase j k t))
  ]

  owed-erase :
      (k : ℕ) (row : Vesting) (t : Table Vesting)
      → find k t ≡ some row
      → owed (erase k t) +ℤ due row ≡ owed t
  unfolding owed
  owed-erase k row t there = let g = sum-erase due k t in rw there at g

  -- What has vested on a row is a part of what the bank owes.
  pub vested-owed :
      (k : ℕ) (row : Vesting) (t : Table Vesting)
      → AllFair t
      → find k t ≡ some row
      → row.vested.amount ≤ℤ owed t
  vested-owed k row t fair there =
      let rest = owed-sign (erase k t) (AllFair-erase k t fair) in
      let g = owed-erase k row t there in
      let part = vested_part row (fair k row there) in
      omega (int_laws, ap pos_part g, ap neg_part g)

  erase-Lowers :
      (k : ℕ) (t : Table Vesting) → AllFair t → AllFair (erase k t) × (owed (erase k t) ≤ℤ owed t)
  unfolding owed
  erase-Lowers k t fair =
      let g = sum-erase due k t in
      elim (Option-cases (find k t)) [
        | inl nothing ↦
            let g' : sum due (erase k t) +ℤ pos 0 ≡ sum due t = rw nothing at g in
            (AllFair-erase k t fair, omega (int_laws, ap pos_part g', ap neg_part g'))
        | inr (row, there) ↦
            let g' : sum due (erase k t) +ℤ due row ≡ sum due t = rw there at g in
            let part = due-sign row (fair k row there) in
            (AllFair-erase k t fair, omega (int_laws, ap pos_part g', ap neg_part g'))
      ]

  erase_rows-Lowers :
      ⦃lib : AssetLib⦄ (m : List (ℕ × Vesting)) (t : Table Vesting)
      → AllFair t
      → AllFair (erase_rows m t) × (owed (erase_rows m t) ≤ℤ owed t)
  erase_rows-Lowers [] t fair = (fair, omega int_laws)
  erase_rows-Lowers ((k, row) ∷ rest) t fair =
      let (kept, less) = erase-Lowers k t fair in
      let (all_kept, all_less) = erase_rows-Lowers rest (erase k t) kept in
      (all_kept, omega int_laws)

  -- `cleanup` keeps the rows fair and does not raise what is owed.
  pub cleanup-Lowers :
      ⦃lib : AssetLib⦄ (e : Env) (t t' : Table Vesting)
      → AllFair t
      → cleanup e t ≡ ok t'
      → AllFair t' × (owed t' ≤ℤ owed t)
  unfolding cleanup
  cleanup-Lowers e t t' fair h =
      let (_, _, h1) = >>=-eq-ok (require_auth e e.self) _ h in
      subst (λ z. AllFair z × (owed z ≤ℤ owed t)) (ok-injective h1)
        (erase_rows-Lowers (rows t) t fair)
