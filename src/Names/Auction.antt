-- ===== src/Names/Auction.antt =====
-- The rules of an auction (contracts/eosio.names/src/eosio.names.cpp): who may outbid whom, and by
-- how much.
use twig_system_contracts.Prelude.{
  ℕ, true, some, List, ℤ, pos, pos_part, ◌≤ℤ◌, ltb_ℤ, sub64, IsI64, ◌/◌, ◌+◌, ◌<◌, arith, ◌≡◌, ◌≢◌,
}
use twig_system_contracts.Chain.{
  MultiIndex, find, store, find-store, AssetLib, NameLib, Env, Asset, ok, Send,
}
use twig_system_contracts.Names.State.{Tables, NameBid}
use twig_system_contracts.Names.Actions.{outbid, enter_bid, bidname, exec}
use twig_system_contracts.Names.Escrow.{bidname-eq-ok}

-- A tested difference of positive amounts is the true one.
raised_by_tenth :
    (old new : ℤ)
    → IsI64 new
    → IsI64 old
    → pos 1 ≤ℤ old
    → pos 1 ≤ℤ new
    → ltb_ℤ (pos (pos_part old / 10)) (sub64 new old) ≡ true
    → pos_part old + pos_part old / 10 < pos_part new
unfolding sub64
raised_by_tenth old new hn ho po pn h = ground arith

module _ ⦃mi : MultiIndex⦄ ⦃lib : AssetLib⦄ where
  outbid-eq-ok :
      (e : Env) (bidder n : ℕ) (bid : Asset) (row : NameBid) (st st' : Tables)
      → outbid e bidder n bid row st ≡ ok st'
      → (pos 1 ≤ℤ row.high_bid.amount)
        × (ltb_ℤ (pos (pos_part row.high_bid.amount / 10)) (sub64 bid.amount row.high_bid.amount)
            ≡ true)
        × (row.high_bidder ≢ bidder)
        × (st'.namebids
            ≡ store n
                (record row { high_bidder = bidder; high_bid = bid; last_bid_time = e.now })
                st.namebids)
  unfolding outbid
  outbid-eq-ok e bidder n bid row st st' h = ground arith

  -- Where a name has a row and both amounts are 64-bit integers, a bid that goes through is on an
  -- open auction, comes from another than the highest bidder, and is above the high bid by more than
  -- a tenth of it (rounded down). It is then the high bid, of that bidder and that time.
  pub bidname_outbids :
      ⦃names : NameLib⦄ (e : Env) (bidder n : ℕ) (bid : Asset) (row : NameBid) (st : Tables)
      (r : Tables × List Send)
      → find n st.namebids ≡ some row
      → IsI64 bid.amount
      → IsI64 row.high_bid.amount
      → bidname e bidder n bid st ≡ ok r
      → (pos 1 ≤ℤ row.high_bid.amount)
        × (pos_part row.high_bid.amount + pos_part row.high_bid.amount / 10 < pos_part bid.amount)
        × (row.high_bidder ≢ bidder)
        × (find n r.0.namebids
            ≡ some (record row { high_bidder = bidder; high_bid = bid; last_bid_time = e.now }))
  unfolding enter_bid
  bidname_outbids e bidder n bid row st r there hb hr h =
      let (entered, _, positive, _, _) = bidname-eq-ok e bidder n bid st r h in
      let (open_still, raised, other, es) = outbid-eq-ok e bidder n bid row st r.0 (ground arith) in
      let high : NameBid = record row {
        high_bidder = bidder;
        high_bid = bid;
        last_bid_time = e.now;
      } in
      (
        open_still,
        raised_by_tenth row.high_bid.amount bid.amount hb hr open_still positive raised,
        other,
        rw es (ground (arith, find-store n n high st.namebids)),
      )

  -- A bid goes through only with the bidder's authority, for a positive amount of the symbol that
  -- the contract is set up for.
  pub bidname_guards :
      ⦃names : NameLib⦄ (e : Env) (bidder n : ℕ) (bid : Asset) (st : Tables)
      (r : Tables × List Send)
      → bidname e bidder n bid st ≡ ok r
      → (e.has_auth bidder ≡ true) × (pos 1 ≤ℤ bid.amount) × (some bid.symbol ≡ st.config)
  bidname_guards e bidder n bid st r h =
      let (_, signed, positive, symbol, _) = bidname-eq-ok e bidder n bid st r h in
      (signed, positive, symbol)

  -- `exec` never goes through, whoever sends it: no auction is ever closed.
  pub exec_fails : (e : Env) (st st' : Tables) → exec e st ≢ ok st'
  unfolding exec
  exec_fails e st st' = ground arith
