-- ===== src/Token/State.antt =====
-- The tables of twig.token (contracts/twig.token/include/twig.token.hpp). The tables `rolldrops`
-- and its parameters are declared there and used by no action.
use twig_system_contracts.Prelude.{ℕ, Option, List, String, ℤ}
use twig_system_contracts.Chain.{MultiIndex, Table, Pairs}

-- symbol(symbol_code("TWIG"), 4)
abbrev pub twig_symbol : ℕ
twig_symbol = 306173137924

pub record BrandingMeta : Type 0 where
  pub x64 : String
  pub x256 : String
  pub x1024 : String
  pub svg : String
  pub extras : List (String × String)

pub record FungibleMeta : Type 0 where
  pub branding : BrandingMeta
  pub name : String
  pub desc : String
  pub tags : List ℤ

abbrev pub FungibleParams : Type 0
FungibleParams = List (ℕ × FungibleMeta)

pub record FungibleRng : Type 0 where
  pub odds : ℕ
  pub sym : ℕ
  pub quant : ℤ
  pub tags : List ℤ

pub record ConfigParams : Type 0 where
  pub core_symbol : ℕ
  pub preserved : List ℕ

pub record Supplies : Type 0 where
  pub supply : Pairs
  pub max_supply : Pairs

pub record Drops : Type 0 where
  pub index : ℕ
  pub params : List FungibleRng

pub record Account : Type 0 where
  pub owner : ℕ
  pub balance : Pairs

pub record Unboxed : Type 0 where
  pub index : ℕ
  pub owner : ℕ
  pub tokens : Pairs

pub record Tables ⦃mi : MultiIndex⦄ : Type 0 where
  pub config : Option ConfigParams
  pub fungibles : Option FungibleParams
  pub supplies : Option Supplies
  pub drops : Table Drops
  pub accounts : Table Account
  pub unboxed : Table Unboxed
