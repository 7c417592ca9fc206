-- ===== src/System/Producers/State.antt =====
-- The tables of producers and finalizers (contracts/eosio.system/include/eosio.system.hpp), and
-- what the contract library and the host do for them.
use twig_system_contracts.Prelude.{
  ℕ, Bool, true, false, Option, none, List, [], ◌∷◌, String, ◌*◌, ◌-◌, ◌+◌, ◌^◌, ltb, leb, ◌==◌,
  ◌&&◌, if◌then◌else◌,
}
use twig_system_contracts.Chain.{MultiIndex, Table, NameLib, name_text, Result}

-- `block_signing_authority_v0`, the one alternative of the variant; keys are their bytes.
pub record SigningAuthority : Type 0 where
  pub threshold : ℕ
  pub keys : List (List ℕ × ℕ)

pub record Producer : Type 0 where
  pub owner : ℕ
  -- the 64 bits of the `double`
  pub total_votes : ℕ
  pub producer_key : List ℕ
  pub is_active : Bool
  pub url : String
  pub unpaid_blocks : ℕ
  pub last_claim_time : ℕ
  pub location : ℕ
  pub producer_authority : Option SigningAuthority

-- `0 < total_votes`: the sign bit is clear, and the rest is neither zero nor beyond infinity.
abbrev pub positive : ℕ → Bool
positive bits = ltb 0 bits && leb bits (2047 * 2 ^ 52)

-- The place of a double in the order of doubles, both zeros being in one place.
abbrev pub double_place : ℕ → ℕ
double_place bits = if ltb bits (2 ^ 63) then 2 ^ 63 + bits else 2 ^ 64 - bits

-- The sign bit, turned.
abbrev pub negated : ℕ → ℕ
negated bits = if ltb bits (2 ^ 63) then bits + 2 ^ 63 else bits - 2 ^ 63

abbrev pub by_votes : Producer → ℕ
by_votes row = if row.is_active then negated row.total_votes else row.total_votes

pub record FinKey : Type 0 where
  pub id : ℕ
  pub finalizer_name : ℕ
  pub finalizer_key : String
  pub finalizer_key_binary : List ℕ

pub record Finalizer : Type 0 where
  pub finalizer_name : ℕ
  pub active_key_id : ℕ
  pub active_key_binary : List ℕ
  pub finalizer_key_count : ℕ

-- `eosio::finalizer_authority`
pub record FinalizerAuthority : Type 0 where
  pub description : String
  pub weight : ℕ
  pub public_key : List ℕ

-- `eosio::finalizer_policy`
pub record FinalizerPolicy : Type 0 where
  pub threshold : ℕ
  pub finalizers : List FinalizerAuthority

pub record FinalizerAuthInfo : Type 0 where
  pub key_id : ℕ
  pub fin_authority : FinalizerAuthority

-- The constructor from a row of the finalizers.
abbrev pub auth_info : ⦃names : NameLib⦄ → Finalizer → FinalizerAuthInfo
auth_info finalizer = record {
  key_id = finalizer.active_key_id;
  fin_authority = record {
    description = name_text finalizer.finalizer_name;
    weight = 1;
    public_key = finalizer.active_key_binary;
  };
}

abbrev pub same_bytes : List ℕ → List ℕ → Bool
same_bytes [] [] = true
same_bytes [] (y ∷ ys) = false
same_bytes (x ∷ xs) [] = false
same_bytes (x ∷ xs) (y ∷ ys) = x == y && same_bytes xs ys

-- `operator==`, which leaves out the description and the weight.
abbrev pub same_info : FinalizerAuthInfo → FinalizerAuthInfo → Bool
same_info a b =
    a.key_id == b.key_id && same_bytes a.fin_authority.public_key b.fin_authority.public_key

-- `==` of vectors.
abbrev pub same_infos : List FinalizerAuthInfo → List FinalizerAuthInfo → Bool
same_infos [] [] = true
same_infos [] (y ∷ ys) = false
same_infos (x ∷ xs) [] = false
same_infos (x ∷ xs) (y ∷ ys) = same_info x y && same_infos xs ys

pub record ProducerAuthority : Type 0 where
  pub producer_name : ℕ
  pub authority : SigningAuthority

pub record Global : Type 0 where
  -- the slot of the `block_timestamp`
  pub last_producer_schedule_update : ℕ
  pub last_producer_schedule_size : ℕ

-- What the contract library and the host offer. `set_finalizers` may refuse a policy.
pub record Host : Type 0 where
  pub is_valid : SigningAuthority → Bool
  -- `public_key{}`
  pub no_key : List ℕ
  pub decode_public_key : String → Result (List ℕ)
  pub decode_signature : String → Result (List ℕ)
  pub pop_verify : List ℕ → List ℕ → Bool
  pub sha256 : List ℕ → ℕ
  pub set_finalizers : FinalizerPolicy → Result (Unit {0})
  pub set_proposed_producers : List ProducerAuthority → Option ℕ
  -- what is read through a `std::optional` of a vector that holds nothing
  pub unset : List FinalizerAuthInfo

-- The tables, the field `_last_prop_finalizers_cached` of the contract object, which an action
-- finds without a value, and the policies that have been set, the last one first.
pub record Registry ⦃mi : MultiIndex⦄ : Type 0 where
  pub global : Option Global
  pub producers : Table Producer
  pub finkeys : Table FinKey
  pub finalizers : Table Finalizer
  -- the one row, under the key 0, and so below
  pub finkeyidgen : Table ℕ
  pub lastpropfins : Table (List FinalizerAuthInfo)
  pub cached : Option (List FinalizerAuthInfo)
  pub policies : List FinalizerPolicy

-- As the contract object of the next action finds it.
abbrev pub anew : ⦃mi : MultiIndex⦄ → Registry → Registry
anew s = record s { cached = none }
