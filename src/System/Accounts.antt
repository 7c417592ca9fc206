-- ===== src/System/Accounts.antt =====
-- The actions on accounts of eosio.system (contracts/eosio.system/src/actions/0.native.cpp): who
-- may change the authorities of an account, who may create one, and what is kept of its contract.
use twig_system_contracts.Prelude.{
  ℕ, zero, suc, Bool, true, false, not, Option, none, some, List, [], ◌∷◌, ◌/◌, ◌%◌, ◌^◌, leb, ◌==◌,
  ◌&&◌, ◌||◌, if◌then◌else◌,
}
use twig_system_contracts.Chain.{
  MultiIndex, Table, find, store, erase, emplace, NameLib, suffix, Env, require_auth, Result, ok,
  err, end_iterator, missing_authority, demand, is_some, check, ◌>>◌,
}

pub record LimitAuth : Type 0 where
  pub version : ℕ
  pub account : ℕ
  pub allow_perms : List ℕ
  pub disallow_perms : List ℕ

pub record Whitelisted : Type 0 where
  pub account : ℕ
  pub depth : ℕ

-- "owner"_n
abbrev pub owner_permission : ℕ
owner_permission = 12044502819693133824

-- `std::find(...) != end()`
unfoldable pub member : ℕ → List ℕ → Bool
member x [] = false
member x (y ∷ rest) = x == y || member x rest

abbrev pub nothing_in : List ℕ → Bool
nothing_in [] = true
nothing_in (x ∷ rest) = false

-- `authorized_by.has_value() ? authorized_by.value().value : 0`
abbrev pub authorized : Option ℕ → ℕ
authorized none = 0
authorized (some permission) = permission

-- The test of a limit that is stored for the account.
abbrev pub check_limit : ℕ → LimitAuth → Result (Unit {0})
check_limit permission row = do
  check (not (permission == 0)) "authorized_by is required for this account"
  (if nothing_in row.allow_perms
      then check (not (member permission row.disallow_perms))
          "authorized_by appears in disallow_perms"
      else check (member permission row.allow_perms) "authorized_by does not appear in allow_perms")

module _ ⦃mi : MultiIndex⦄ where
  -- `has_level account permission`: that permission of the account has signed.
  unfoldable pub check_auth_change :
      (has_level : ℕ → ℕ → Bool) → ℕ → Option ℕ → Table LimitAuth → Result (Unit {0})
  unfolding member
  check_auth_change has_level account authorized_by limits = do
    (if authorized authorized_by == 0
        then ok tt
        else demand (has_level account (authorized authorized_by)) (missing_authority account))
    elim (find account limits) [
      | none ↦ ok tt
      | some row ↦ check_limit (authorized authorized_by) row
    ]

  -- What `limitauthchg` writes.
  abbrev pub set_limit : ℕ → List ℕ → List ℕ → Table LimitAuth → Result (Table LimitAuth)
  set_limit account allow_perms disallow_perms limits = elim (find account limits) [
    | none ↦
        emplace account
          (record {
            version = 0;
            account = account;
            allow_perms = allow_perms;
            disallow_perms = disallow_perms;
          })
          limits
    | some row ↦ ok (
        store account (record row { allow_perms = allow_perms; disallow_perms = disallow_perms })
          limits)
  ]

  unfoldable pub limitauthchg :
      Env → ℕ → List ℕ → List ℕ → Table LimitAuth → Result (Table LimitAuth)
  unfolding member
  limitauthchg e account allow_perms disallow_perms limits = do
    require_auth e account
    check (nothing_in allow_perms || nothing_in disallow_perms)
        "either allow_perms or disallow_perms must be empty"
    check (nothing_in allow_perms || member owner_permission allow_perms)
        "allow_perms does not contain owner"
    check (nothing_in disallow_perms || not (member owner_permission disallow_perms))
        "disallow_perms contains owner"
    (if nothing_in allow_perms && nothing_in disallow_perms
        then ok (if is_some (find account limits) then erase account limits else limits)
        else set_limit account allow_perms disallow_perms limits)

  -- The loop over the twelve characters of a name: whether one of them is a dot.
  unfoldable pub has_dot : ℕ → ℕ → Bool
  has_dot zero tmp = false
  has_dot (suc rounds) tmp = tmp % 2 ^ 5 == 0 || has_dot rounds (tmp / 2 ^ 5)

  -- The depth that lets the contract itself create any name.
  abbrev pub is_privileged : Env → ℕ → Option Whitelisted → Bool
  is_privileged e creator none = false
  is_privileged e creator (some row) = creator == e.self && not (leb row.depth 3)

  -- The `cleanup` that is sent after `check(false, ...)` is never reached.
  unfoldable pub newaccount :
      ⦃names : NameLib⦄ → Env → ℕ → ℕ → Table Whitelisted → Result (Unit {0})
  newaccount e creator new_account_name whitelist =
      if is_privileged e creator (find creator whitelist)
      then ok tt
      else if has_dot 12 (new_account_name / 2 ^ 4)
      then (if suffix new_account_name == new_account_name
          then check false "namebids currently disabled"
          else check (creator == suffix new_account_name) "only suffix may create this account")
      else ok tt

  unfoldable pub setwhitelist : Env → ℕ → ℕ → Table Whitelisted → Result (Table Whitelisted)
  setwhitelist e account depth whitelist = do
    require_auth e e.self
    elim (find account whitelist) [
      | none ↦
          if depth == 0
          then err end_iterator
          else emplace account (record { account = account; depth = depth }) whitelist
      | some row ↦ ok (
          if depth == 0
          then erase account whitelist
          else store account (record row { depth = depth }) whitelist)
    ]
