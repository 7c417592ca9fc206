-- ===== src/System/Contracts.antt =====
-- What eosio.system keeps of an account's contract
-- (contracts/eosio.system/src/actions/0.native.cpp: setabi, setcode, setcodeinfo).
use twig_system_contracts.Prelude.{
  ℕ, zero, suc, Option, none, some, List, [], ◌∷◌, String, arith, ◌≡◌, refl, Option-cases, inl, inr,
}
use twig_system_contracts.Chain.{
  MultiIndex, Table, find, store, find-store, emplace, Env, require_auth, Result, ok, ◌>>=◌, ◌>>◌,
}
use twig_system_contracts.Token.State.{BrandingMeta}

pub record ContractMeta : Type 0 where
  pub name : String
  pub desc : String
  pub site : String
  pub source : String
  pub version : String
  pub compiler : String
  pub build : String
  pub extras : List (String × String)

-- temporal_256: a time and the bytes of a hash.
pub record Temporal : Type 0 where
  pub time : ℕ
  pub hash : List ℕ

pub record ContractInfo : Type 0 where
  pub owner : ℕ
  pub contract : ContractMeta
  pub branding : BrandingMeta
  pub abi : Temporal
  pub code : Temporal

abbrev pub zeros : ℕ → List ℕ
zeros zero = []
zeros (suc n) = 0 ∷ zeros n

-- The values that the members of a new row start with.
abbrev pub blank_time : Temporal
blank_time = record { time = 0; hash = zeros 32 }

abbrev pub blank : ℕ → ContractInfo
blank owner = record {
  owner = owner;
  contract = record {
    name = "";
    desc = "";
    site = "";
    source = "closed";
    version = "";
    compiler = "";
    build = "";
    extras = [];
  };
  branding = record { x64 = ""; x256 = ""; x1024 = ""; svg = ""; extras = [] };
  abi = blank_time;
  code = blank_time;
}

module _ ⦃mi : MultiIndex⦄ (sha256 : List ℕ → List ℕ) where
  unfoldable pub setabi : Env → ℕ → List ℕ → Table ContractInfo → Result (Table ContractInfo)
  setabi e account abi t =
      let stamp : Temporal = record { time = e.now; hash = sha256 abi } in
      elim (find account t) [
        | none ↦ emplace account (record (blank account) { abi = stamp }) t
        | some row ↦ ok (store account (record row { abi = stamp }) t)
      ]

  unfoldable pub setcode : Env → ℕ → List ℕ → Table ContractInfo → Result (Table ContractInfo)
  setcode e account code t =
      let stamp : Temporal = record { time = e.now; hash = sha256 code } in
      elim (find account t) [
        | none ↦ emplace account (record (blank account) { code = stamp }) t
        | some row ↦ ok (store account (record row { code = stamp }) t)
      ]

  -- The row of an account, or the one that it starts with.
  abbrev pub info : ℕ → Option ContractInfo → ContractInfo
  info account none = blank account
  info account (some row) = row

  emplace-new :
      (k : ℕ) (row : ContractInfo) (t : Table ContractInfo)
      → find k t ≡ none
      → emplace k row t ≡ ok (store k row t)
  emplace-new k row t new = rw new refl

  setabi-eq :
      (e : Env) (account : ℕ) (abi : List ℕ) (t : Table ContractInfo)
      → setabi e account abi t
        ≡ ok (
            store account
              (record (info account (find account t)) {
                abi = record { time = e.now; hash = sha256 abi };
              })
              t)
  unfolding setabi
  setabi-eq e account abi t = elim (Option-cases (find account t)) [
    | inl new ↦
        rw (setabi, new)
          (emplace-new account
            (record (blank account) { abi = record { time = e.now; hash = sha256 abi } }) t new)
    | inr (row, there) ↦ rw (setabi, there) refl
  ]

  setcode-eq :
      (e : Env) (account : ℕ) (code : List ℕ) (t : Table ContractInfo)
      → setcode e account code t
        ≡ ok (
            store account
              (record (info account (find account t)) {
                code = record { time = e.now; hash = sha256 code };
              })
              t)
  unfolding setcode
  setcode-eq e account code t = elim (Option-cases (find account t)) [
    | inl new ↦
        rw (setcode, new)
          (emplace-new account
            (record (blank account) { code = record { time = e.now; hash = sha256 code } }) t new)
    | inr (row, there) ↦ rw (setcode, there) refl
  ]

  -- Setting the code and the abi of an account always goes through, and the order does not matter:
  -- both orders leave the same rows, with both hashes and with all else of the row as it was.
  pub setabi-setcode :
      (e e' : Env) (account k : ℕ) (abi code : List ℕ) (t : Table ContractInfo)
      → (first second : Table ContractInfo) × ((setabi e account abi t >>= setcode e' account code)
          ≡ ok first)
        × ((setcode e' account code t >>= setabi e account abi) ≡ ok second)
        × (find k first ≡ find k second)
        × (find account first
            ≡ some (record (info account (find account t)) {
              abi = record { time = e.now; hash = sha256 abi };
              code = record { time = e'.now; hash = sha256 code };
            }))
  setabi-setcode e e' account k abi code t =
      let abi_stamp : Temporal = record { time = e.now; hash = sha256 abi } in
      let code_stamp : Temporal = record { time = e'.now; hash = sha256 code } in
      let old = info account (find account t) in
      let with_abi : ContractInfo = record old { abi = abi_stamp } in
      let with_code : ContractInfo = record old { code = code_stamp } in
      let both : ContractInfo = record old { abi = abi_stamp; code = code_stamp } in
      let abi_there : find account (store account with_abi t) ≡ some with_abi =
        ground (arith, find-store account account with_abi t) in
      let code_there : find account (store account with_code t) ≡ some with_code =
        ground (arith, find-store account account with_code t) in
      let code_eq = setcode-eq e' account code (store account with_abi t) in
      let code_after = rw abi_there at code_eq in
      let abi_eq = setabi-eq e account abi (store account with_code t) in
      let abi_after = rw code_there at abi_eq in
      (
        store account both (store account with_abi t),
        store account both (store account with_code t),
        rw (setabi-eq e account abi t) code_after,
        rw (setcode-eq e' account code t) abi_after,
        ground (
          arith,
          find-store k account both (store account with_abi t),
          find-store k account with_abi t,
          find-store k account both (store account with_code t),
          find-store k account with_code t,
        ),
        ground (arith, find-store account account both (store account with_abi t)),
      )

unfoldable pub setcodeinfo :
    ⦃mi : MultiIndex⦄
    → Env
    → ℕ
    → ContractMeta
    → BrandingMeta
    → Table ContractInfo
    → Result (Table ContractInfo)
setcodeinfo e account contract branding t = do
  require_auth e account
  elim (find account t) [
    | none ↦ emplace account (record (blank account) { contract = contract; branding = branding }) t
    | some row ↦ ok (store account (record row { contract = contract; branding = branding }) t)
  ]
