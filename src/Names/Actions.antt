-- ===== src/Names/Actions.antt =====
-- The actions of eosio.names (contracts/eosio.names/src/eosio.names.cpp).
use Prim.Native.String.{◌++◌}
use twig_system_contracts.Prelude.{
  ℕ, Bool, true, false, not, none, some, List, [], ◌∷◌, pos, pos_part, sub64, ltb_ℤ, ◌==◌, ◌/◌,
  bit_and,
}
use twig_system_contracts.Chain.{
  MultiIndex, Table, find, store, erase, emplace, at_scope, AssetLib, plus_asset, NameLib, suffix,
  name_text, Env, require_auth, Asset, Result, ok, no_singleton, message, ◌>>=◌, ◌>>◌, check,
  or_fail, Send, Call,
}
use twig_system_contracts.Names.State.{Tables, NameBid, BidRefund, token_account}

module _ ⦃mi : MultiIndex⦄ where
  -- `token::get_max_supply` is declared nowhere in the repository: it is the argument `exists`,
  -- which fails where the token contract does not have the symbol.
  unfoldable pub init : (exists : ℕ → Result (Unit {0})) → Env → Bool → ℕ → Tables → Result Tables
  init exists e destruct core_symbol st = do
    require_auth e e.self
    elim destruct [
      | true ↦ ok (record st { config = none })
      | false ↦ do exists core_symbol; ok (record st { config = some core_symbol })
    ]

  -- Reads an iterator and then always fails.
  unfoldable pub exec : Env → Tables → Result Tables
  exec e st = do require_auth e e.self; check false "currently disabled"; ok st

  unfoldable pub cleanup : Env → ℕ → Tables → Result Tables
  cleanup e newname st = do
    require_auth e e.self
    row ← or_fail (find newname st.namebids) (message "newname not found")
    ok (record st { namebids = erase newname st.namebids })

  -- The bidder who is outbid gets a refund in the scope of the name.
  unfoldable pub add_refund :
      ⦃lib : AssetLib⦄ → NameBid → Table BidRefund → Result (Table BidRefund)
  add_refund bid refunds = elim (find bid.high_bidder refunds) [
    | some row ↦ do
      amount ← plus_asset row.amount bid.high_bid
      ok (store bid.high_bidder (record row { amount = amount }) refunds)
    | none ↦
        emplace bid.high_bidder (record { bidder = bid.high_bidder; amount = bid.high_bid }) refunds
  ]

  -- The checks on the name, in their order.
  unfoldable pub check_name : ⦃names : NameLib⦄ → Env → ℕ → Result (Unit {0})
  check_name e newname = do
    check (not (newname == 0)) "the empty name is not a valid account name to bid on"
    check (bit_and newname 0xF == 0) "13 character names are not valid account names to bid on"
    check (bit_and newname 0x1F0 == 0)
        "accounts with 12 character names and no dots can be created without bidding required"
    check (not (e.is_account newname)) "account already exists"

  -- A bid on a name that has a row.
  unfoldable pub outbid : ⦃lib : AssetLib⦄ → Env → ℕ → ℕ → Asset → NameBid → Tables → Result Tables
  unfolding add_refund
  outbid e bidder newname bid row st = do
    check (ltb_ℤ (pos 0) row.high_bid.amount) "this auction has already closed"
    check (ltb_ℤ (pos (pos_part row.high_bid.amount / 10)) (sub64 bid.amount row.high_bid.amount))
        "must increase bid by 10%"
    check (not (row.high_bidder == bidder)) "account is already highest bidder"
    refunds ← add_refund row (st.bidrefunds newname)
    ok (record st {
      bidrefunds = at_scope newname refunds st.bidrefunds;
      namebids =
          store newname (record row { high_bidder = bidder; high_bid = bid; last_bid_time = e.now })
            st.namebids;
    })

  -- A bid on a name that has none.
  unfoldable pub first_bid : Env → ℕ → ℕ → Asset → Tables → Result Tables
  first_bid e bidder newname bid st = do
    namebids ←
        emplace newname
          (record {
            newname = newname;
            high_bidder = bidder;
            high_bid = bid;
            last_bid_time = e.now;
          })
          st.namebids
    ok (record st { namebids = namebids })

  -- The tables after a bid.
  unfoldable pub enter_bid : ⦃lib : AssetLib⦄ → Env → ℕ → ℕ → Asset → Tables → Result Tables
  unfolding outbid first_bid
  enter_bid e bidder newname bid st = elim (find newname st.namebids) [
    | none ↦ first_bid e bidder newname bid st
    | some row ↦ outbid e bidder newname bid row st
  ]

  unfoldable pub bidname :
      ⦃lib : AssetLib⦄
      → ⦃names : NameLib⦄ → Env
      → ℕ
      → ℕ
      → Asset
      → Tables
      → Result (Tables × List Send)
  unfolding check_name enter_bid
  bidname e bidder newname bid st = do
    require_auth e bidder
    check (suffix newname == newname) "you can only bid on top-level suffix"
    core_symbol ← or_fail st.config no_singleton
    check_name e newname
    check (bid.symbol == core_symbol) "asset must be system token"
    check (ltb_ℤ (pos 0) bid.amount) "insufficient bid"
    st' ← enter_bid e bidder newname bid st
    ok (
      st',
      record {
        actor = bidder;
        contract = token_account;
        call = Call.transfer_one bidder e.self bid ("bid name " ++ name_text newname);
      }
          ∷ [],
    )

  -- Anybody may send it: no authority is asked for.
  unfoldable pub bidrefund : ⦃names : NameLib⦄ → Env → ℕ → ℕ → Tables → Result (Tables × List Send)
  bidrefund e bidder newname st = do
    row ← or_fail (find bidder (st.bidrefunds newname)) (message "refund not found")
    ok (
      record st {
        bidrefunds = at_scope newname (erase bidder (st.bidrefunds newname)) st.bidrefunds;
      },
      record {
        actor = e.self;
        contract = token_account;
        call =
            Call.transfer_one e.self bidder row.amount ("refund bid on name " ++ name_text newname);
      }
          ∷ [],
    )
