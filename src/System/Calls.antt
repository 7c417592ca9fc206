-- ===== src/System/Calls.antt =====
-- The calls that are made with random numbers
-- (contracts/eosio.system/src/actions/2.admin.cpp: setrngcall, rmvrngcall, modrngcall).
use twig_system_contracts.Prelude.{
  ℕ, Option, none, some, ◌==◌, if◌then◌else◌, arith, ◌≡◌, true, refl, sym, ◌∙◌, Option-cases,
  Bool-cases, inl, inr,
}
use twig_system_contracts.Chain.{
  MultiIndex, Table, find, store, erase, find-store, find-erase, emplace, Env, require_auth, Result,
  ok, ◌>>◌,
}

pub record RngCall : Type 0 where
  pub index : ℕ
  pub contract : ℕ
  pub action : ℕ
  pub active : ℕ

module _ ⦃mi : MultiIndex⦄ where
  unfoldable pub setrngcall : Env → ℕ → ℕ → ℕ → Table RngCall → Result (Table RngCall)
  setrngcall e index contract action t = do
    require_auth e e.self
    elim (find index t) [
      | none ↦
          emplace index (record { index = index; contract = contract; action = action; active = 0 })
            t
      | some row ↦
          ok (store index (record row { contract = contract; action = action; active = 0 }) t)
    ]

  unfoldable pub rmvrngcall : Env → ℕ → Table RngCall → Result (Table RngCall)
  rmvrngcall e index t = do
    require_auth e e.self
    ok (elim (find index t) [ none ↦ t | some row ↦ erase index t ])

  unfoldable pub modrngcall : Env → ℕ → ℕ → Table RngCall → Result (Table RngCall)
  modrngcall e index active t = do
    require_auth e e.self
    ok (elim (find index t) [
      | none ↦ t
      | some row ↦ store index (record row { active = active }) t
    ])

  -- Each row stands under its index.
  abbrev pub IsIndexed : Table RngCall → Type 0
  IsIndexed t = (k : ℕ) (row : RngCall) → find k t ≡ some row → row.index ≡ k

-- The actions on the table.
pub data Act : Type 0 where
  set : ℕ → ℕ → ℕ → Act
  remove_call : ℕ → Act
  activate : ℕ → ℕ → Act

abbrev pub index_of : Act → ℕ
index_of (set index contract action) = index
index_of (remove_call index) = index
index_of (activate index active) = index

-- What an action makes of the row at its index.
abbrev pub row_after : Act → Option RngCall → Option RngCall
row_after (set index contract action) old =
    some (record { index = index; contract = contract; action = action; active = 0 })
row_after (remove_call index) old = none
row_after (activate index active) none = none
row_after (activate index active) (some row) = some (record row { active = active })

module _ ⦃mi : MultiIndex⦄ where
  abbrev pub perform : Env → Act → Table RngCall → Result (Table RngCall)
  perform e (set index contract action) t = setrngcall e index contract action t
  perform e (remove_call index) t = rmvrngcall e index t
  perform e (activate index active) t = modrngcall e index active t

  perform-row :
      (e : Env) (act : Act) (t : Table RngCall)
      → IsIndexed t
      → e.has_auth e.self ≡ true
      → (t' : Table RngCall) × (perform e act t ≡ ok t')
        × ((k : ℕ) → find k t' ≡ (if k == index_of act then row_after act (find k t) else find k t))
  unfolding setrngcall rmvrngcall modrngcall
  perform-row e (set index contract action) t keyed signed = elim (Option-cases (find index t)) [
    | inl new ↦
        let row : RngCall = record {
          index = index;
          contract = contract;
          action = action;
          active = 0;
        } in
        (store index row t, ground arith, λ k. ground (arith, find-store k index row t))
    | inr (old, there) ↦
        let row : RngCall = record old { contract = contract; action = action; active = 0 } in
        let same = keyed index old there in
        (store index row t, ground arith, λ k. ground (arith, find-store k index row t))
  ]
  perform-row e (remove_call index) t keyed signed = elim (Option-cases (find index t)) [
    | inl new ↦ (t, ground arith, λ k. ground arith)
    | inr (old, there) ↦ (erase index t, ground arith, λ k. ground (arith, find-erase k index t))
  ]
  perform-row e (activate index active) t keyed signed = elim (Option-cases (find index t)) [
    | inl new ↦ (t, ground arith, λ k. ground arith)
    | inr (old, there) ↦
        let row : RngCall = record old { active = active } in
        (store index row t, ground arith, λ k. ground (arith, find-store k index row t))
  ]

  row_after-index :
      (act : Act) (old : Option RngCall) (row : RngCall)
      → ((r : RngCall) → old ≡ some r → r.index ≡ index_of act)
      → row_after act old ≡ some row
      → row.index ≡ index_of act
  row_after-index (set index contract action) old row keyed h = ground arith
  row_after-index (remove_call index) old row keyed h = absurd (ground arith)
  row_after-index (activate index active) none row keyed h = absurd (ground arith)
  row_after-index (activate index active) (some r) row keyed h = ground (arith, keyed r refl)

  -- An action on the calls goes through exactly with the authority of the contract, and writes the
  -- row at its index as described: a call that is set starts inactive, one that is not there is not
  -- activated, and every other call stays as it was.
  pub perform-row_after :
      (e : Env) (act : Act) (t : Table RngCall)
      → IsIndexed t
      → e.has_auth e.self ≡ true
      → (t' : Table RngCall) × (perform e act t ≡ ok t')
        × IsIndexed t'
        × ((k : ℕ) → find k t' ≡ (if k == index_of act then row_after act (find k t) else find k t))
  perform-row_after e act t keyed signed =
      let (t', done, law) = perform-row e act t keyed signed in
      (
        t',
        done,
        λ k row h. elim (Bool-cases (k == index_of act)) [
          | inl here ↦
              let same : k ≡ index_of act = ground arith in
              let l = law k in
              row_after-index act (find k t) row (λ r there. keyed k r there ∙ same) (ground arith)
              ∙ sym same
          | inr other ↦ let l = law k in keyed k row (ground arith)
        ],
        law,
      )
