-- ===== src/System/Authorities.antt =====
-- Who may change the authorities of an account, and who may create one
-- (contracts/eosio.system/src/actions/0.native.cpp).
use native.Mathlib.Nat.{div-div-eq-div-mul, pow-succ'}
use twig_system_contracts.Prelude.{
  ℕ, zero, suc, Bool, true, false, none, some, List, [], ◌∷◌, ◌/◌, ◌%◌, ◌^◌, ◌<◌, sym, ap, ◌∙◌,
  Bool-cases, arith, ◌≡◌, ◌≢◌, ◌↔◌, ◌⊎◌, refl, Option-cases, inl, inr,
}
use twig_system_contracts.Chain.{
  MultiIndex, Table, find, find-store, find-erase, NameLib, suffix, Env, ok,
}
use twig_system_contracts.System.Accounts.{
  LimitAuth, Whitelisted, owner_permission, member, check_auth_change, limitauthchg, set_limit,
  has_dot, is_privileged, newaccount,
}

-- A permission may change the authorities of an account whose lists are these.
abbrev pub MayChange : ℕ → List ℕ → List ℕ → Type 0
MayChange permission [] [] = Unit
MayChange permission [] (x ∷ disallow) = member permission (x ∷ disallow) ≡ false
MayChange permission (x ∷ allow) disallow = member permission (x ∷ allow) ≡ true

-- A character of a name, from its end: the last of the twelve comes first. A dot is zero.
abbrev character : ℕ → ℕ → ℕ
character i name = name / 2 ^ 4 / 32 ^ i % 32

-- None of the twelve characters is a dot.
abbrev pub HasTwelve : ℕ → Type 0
HasTwelve name = (i : ℕ) → i < 12 → character i name ≢ 0

-- The contract itself, in the whitelist with a depth above three.
abbrev pub IsDeep : ⦃mi : MultiIndex⦄ → Env → ℕ → Table Whitelisted → Type 0
IsDeep e creator whitelist =
    (row : Whitelisted) × (find creator whitelist ≡ some row) × (creator ≡ e.self) × (3 < row.depth)

next_character : (i tmp : ℕ) → tmp / 32 / 32 ^ i ≡ tmp / 32 ^ suc i
next_character i tmp = div-div-eq-div-mul tmp 32 (32 ^ i) ∙ ap (λ d. tmp / d) (sym (pow-succ' 32 i))

first_character : (tmp : ℕ) → tmp / 32 ^ zero ≡ tmp
first_character tmp = omega arith

each_character :
    (n tmp : ℕ)
    → tmp % 32 ≢ 0
    → ((i : ℕ) → i < n → tmp / 32 / 32 ^ i % 32 ≢ 0)
    → (i : ℕ) → i < suc n
    → tmp / 32 ^ i % 32 ≢ 0
each_character n tmp one rest zero few = rw (first_character tmp) one
each_character n tmp one rest (suc i) few =
    let later = rest i (omega arith) in rw (next_character i tmp) at later

module _ ⦃mi : MultiIndex⦄ where
  -- The loop over the characters finds no dot exactly if none of them is one.
  no_dot : (n tmp : ℕ) → (has_dot n tmp ≡ false) ↔ ((i : ℕ) → i < n → tmp / 32 ^ i % 32 ≢ 0)
  unfolding has_dot
  no_dot zero tmp = (λ h i few. absurd (omega arith), λ all. refl)
  no_dot (suc n) tmp =
      let (there, back) = no_dot n (tmp / 2 ^ 5) in
      (
        λ h. each_character n tmp (ground arith) (there (ground arith)),
        λ all.
            let here = all zero (omega arith) in
            let at_zero = first_character tmp in
            let one : tmp % 32 ≢ 0 = rw at_zero at here in
            let rest = back (λ i few. rw (next_character i tmp) (all (suc i) (omega arith))) in
            ground arith,
      )

  set_limit-row :
      (account : ℕ) (allow disallow : List ℕ) (limits limits' : Table LimitAuth)
      → set_limit account allow disallow limits ≡ ok limits'
      → (row : LimitAuth) × (find account limits' ≡ some row)
        × (row.allow_perms ≡ allow)
        × (row.disallow_perms ≡ disallow)
  set_limit-row account allow disallow limits limits' h =
      elim (Option-cases (find account limits)) [
        | inl new ↦
            let row : LimitAuth = record {
              version = 0;
              account = account;
              allow_perms = allow;
              disallow_perms = disallow;
            } in
            (row, ground (arith, find-store account account row limits), refl, refl)
        | inr (old, there) ↦
            let row : LimitAuth = record old { allow_perms = allow; disallow_perms = disallow } in
            (row, ground (arith, find-store account account row limits), refl, refl)
      ]

  limit_gone :
      (e : Env) (account : ℕ) (limits limits' : Table LimitAuth)
      → limitauthchg e account [] [] limits ≡ ok limits'
      → find account limits' ≡ none
  unfolding limitauthchg
  limit_gone e account limits limits' h = elim (Option-cases (find account limits)) [
    | inl new ↦ ground arith
    | inr (old, there) ↦ ground (arith, find-erase account account limits)
  ]

  disallow_written :
      (e : Env) (account x : ℕ) (disallow : List ℕ) (limits limits' : Table LimitAuth)
      → limitauthchg e account [] (x ∷ disallow) limits ≡ ok limits'
      → (set_limit account [] (x ∷ disallow) limits ≡ ok limits')
        × (member owner_permission (x ∷ disallow) ≡ false)
  unfolding limitauthchg
  disallow_written e account x disallow limits limits' h = ground arith

  allow_written :
      (e : Env) (account x : ℕ) (allow disallow : List ℕ) (limits limits' : Table LimitAuth)
      → limitauthchg e account (x ∷ allow) disallow limits ≡ ok limits'
      → (set_limit account (x ∷ allow) disallow limits ≡ ok limits')
        × (member owner_permission (x ∷ allow) ≡ true)
  unfolding limitauthchg
  allow_written e account x allow disallow limits limits' h = ground arith

  -- After a `limitauthchg` that goes through, a permission that has signed may change the
  -- authorities of the account exactly if the lists let it. The owner permission always may.
  pub limitauthchg-MayChange :
      (e : Env) (has_level : ℕ → ℕ → Bool) (account permission : ℕ) (allow disallow : List ℕ)
      (limits limits' : Table LimitAuth)
      → limitauthchg e account allow disallow limits ≡ ok limits'
      → has_level account permission ≡ true
      → permission ≢ 0
      → ((check_auth_change has_level account (some permission) limits' ≡ ok tt)
          ↔ MayChange permission allow disallow)
        × MayChange owner_permission allow disallow
  unfolding check_auth_change
  limitauthchg-MayChange e has_level account permission [] [] limits limits' h signed named =
      let gone = limit_gone e account limits limits' h in ((λ _. tt, λ _. ground arith), tt)
  limitauthchg-MayChange e has_level account permission [] (x ∷ disallow) limits limits' h signed
        named =
      let (written, free) = disallow_written e account x disallow limits limits' h in
      let (row, there, ea, ed) = set_limit-row account [] (x ∷ disallow) limits limits' written in
      (ground arith, free)
  limitauthchg-MayChange e has_level account permission (x ∷ allow) disallow limits limits' h signed
        named =
      let (written, listed) = allow_written e account x allow disallow limits limits' h in
      let (row, there, ea, ed) =
        set_limit-row account (x ∷ allow) disallow limits limits' written in
      (ground arith, listed)

  privileged :
      (e : Env) (creator : ℕ) (whitelist : Table Whitelisted)
      → (is_privileged e creator (find creator whitelist) ≡ true) ↔ IsDeep e creator whitelist
  privileged e creator whitelist = elim (Option-cases (find creator whitelist)) [
    | inl absent ↦ (λ h. absurd (ground arith), λ (row, there, own, deep). absurd (ground arith))
    | inr (row, there) ↦ (
      λ h. (row, there, ground arith, ground arith),
      λ (other, found, own, deep). let same : row ≡ other = cc in ground arith,
    )
  ]

  -- `newaccount` goes through exactly for the contract itself, where its row in the whitelist has a
  -- depth above three, for a name of which none of the first twelve characters is a dot (as those
  -- after the end of a shorter name are), and for the account that the suffix of the name is, where
  -- that is not the whole name.
  pub newaccount_iff :
      ⦃names : NameLib⦄ (e : Env) (creator name : ℕ) (whitelist : Table Whitelisted)
      → (newaccount e creator name whitelist ≡ ok tt) ↔ (
          IsDeep e creator whitelist
          ⊎ (HasTwelve name ⊎ ((suffix name ≢ name) × (creator ≡ suffix name))))
  unfolding newaccount
  newaccount_iff e creator name whitelist =
      let (deep, back) = privileged e creator whitelist in
      let (filled, undotted) = no_dot 12 (name / 2 ^ 4) in
      elim (Bool-cases (is_privileged e creator (find creator whitelist))) [
        | inl yes_deep ↦ rw yes_deep (λ h. inl (deep yes_deep), λ any. refl)
        | inr not_deep ↦ elim (Bool-cases (has_dot 12 (name / 2 ^ 4))) [
          | inr without ↦ rw (not_deep, without) (λ h. inr (inl (filled without)), λ any. refl)
          | inl dotted ↦ (
            λ h. inr (inr (ground arith)),
            λ any. elim any [
              | inl d ↦ let was = back d in absurd (ground arith)
              | inr (inl twelve) ↦ let was = undotted twelve in absurd (ground arith)
              | inr (inr by_suffix) ↦ ground arith
            ],
          )
        ]
      ]
