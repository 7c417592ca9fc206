-- ===== src/Names/Escrow.antt =====
-- What eosio.names owes for a name in one symbol: the high bid that it keeps, and the refunds of those outbid.
use twig_system_contracts.Prelude.{
  ℕ, String, true, not, none, some, List, [], ◌∷◌, ℤ, pos, pos_part, neg_part, ◌+ℤ◌, ◌≤ℤ◌, ltb_ℤ,
  sub64, ◌/◌, int_laws, ◌==◌, arith, ◌≡◌, refl, ap, ◌≢◌, inl, inr, Option-cases, Bool-cases,
  if◌then◌else◌,
}
use twig_system_contracts.Chain.{
  MultiIndex, Table, find, store, erase, find-store, find-erase, sum, sum-store, sum-erase,
  weight_of, at_scope, AssetLib, plus_asset, plus_asset-fields, NameLib, name_text, Env, Asset, ok,
  or_fail, message, check, ◌>>=◌, >>=-eq-ok, Send, Call,
}
use Prim.Native.String.{◌++◌}
use twig_system_contracts.Names.State.{token_account, Tables, NameBid, BidRefund}
use twig_system_contracts.Names.Actions.{
  add_refund, first_bid, outbid, enter_bid, check_name, bidname, bidrefund,
}

-- The memos of the transfers.
abbrev pub bid_memo : ⦃names : NameLib⦄ → ℕ → String
bid_memo n = "bid name " ++ name_text n

abbrev pub refund_memo : ⦃names : NameLib⦄ → ℕ → String
refund_memo n = "refund bid on name " ++ name_text n

-- What an asset is worth in one symbol.
abbrev pub value_in : ℕ → Asset → ℤ
value_in symbol a = if a.symbol == symbol then a.amount else pos 0

abbrev pub bid_amount : ℕ → NameBid → ℤ
bid_amount symbol b = value_in symbol b.high_bid

abbrev pub refund_amount : ℕ → BidRefund → ℤ
refund_amount symbol r = value_in symbol r.amount

-- The value of two assets of one symbol is the value of their sum.
value_in-plus :
    ⦃lib : AssetLib⦄ (symbol : ℕ) (a b c : Asset)
    → plus_asset a b ≡ ok c
    → value_in symbol c ≡ value_in symbol a +ℤ value_in symbol b
value_in-plus symbol a b c h =
    let (same, sum) = plus_asset-fields a b c h in
    elim (Bool-cases (b.symbol == symbol)) [
      | inl here ↦ rw (sum, same, here) refl
      | inr there ↦ rw (sum, same, there) (omega int_laws)
    ]

module _ ⦃mi : MultiIndex⦄ where
  unfoldable pub owed : ℕ → ℕ → Tables → ℤ
  unfolding sum
  owed symbol n st =
      weight_of (bid_amount symbol) (find n st.namebids)
      +ℤ sum (refund_amount symbol) (st.bidrefunds n)

  -- A refund adds the high bid of the one who is outbid to what is refunded.
  add_refund-sum :
      ⦃lib : AssetLib⦄ (symbol : ℕ) (b : NameBid) (t t' : Table BidRefund)
      → add_refund b t ≡ ok t'
      → sum (refund_amount symbol) t' ≡ sum (refund_amount symbol) t +ℤ bid_amount symbol b
  unfolding add_refund
  add_refund-sum symbol b t t' h = elim (Option-cases (find b.high_bidder t)) [
    | inl new ↦
        let fresh : BidRefund = record { bidder = b.high_bidder; amount = b.high_bid } in
        let e : t' ≡ store b.high_bidder fresh t = ground arith in
        let g = sum-store (refund_amount symbol) b.high_bidder fresh t in
        let g' : sum (refund_amount symbol) (store b.high_bidder fresh t) +ℤ pos 0
            ≡ sum (refund_amount symbol) t +ℤ bid_amount symbol b =
          rw new at g in
        rw e (omega (int_laws, ap pos_part g', ap neg_part g'))
    | inr (row, there) ↦
        let h' : (plus_asset row.amount b.high_bid >>= λ a.
        ok (store b.high_bidder (record row { amount = a }) t))
            ≡ ok t' =
          ground arith in
        let (a, ea, es) = >>=-eq-ok (plus_asset row.amount b.high_bid) _ h' in
        let sums = value_in-plus symbol row.amount b.high_bid a ea in
        let g = sum-store (refund_amount symbol) b.high_bidder (record row { amount = a }) t in
        let g' : sum (refund_amount symbol) (store b.high_bidder (record row { amount = a }) t)
              +ℤ value_in symbol row.amount
            ≡ sum (refund_amount symbol) t +ℤ value_in symbol a =
          rw there at g in
        let e : t' ≡ store b.high_bidder (record row { amount = a }) t = cc in
        rw e (omega (int_laws, ap pos_part g', ap neg_part g', ap pos_part sums, ap neg_part sums))
  ]

  -- A new bid is what is owed for its name from there on, on top of what was owed before, and no
  -- other name is touched.
  pub record OwesMore (symbol : ℕ) (amount : ℤ) (n : ℕ) (st st' : Tables) : Type 0 where
    pub more : owed symbol n st' ≡ owed symbol n st +ℤ amount
    pub others : (other : ℕ) → other ≢ n → owed symbol other st' ≡ owed symbol other st
    pub config : st'.config ≡ st.config

  first_bid-OwesMore :
      (symbol : ℕ) (e : Env) (bidder n : ℕ) (bid : Asset) (st st' : Tables)
      → find n st.namebids ≡ none
      → first_bid e bidder n bid st ≡ ok st'
      → OwesMore symbol (value_in symbol bid) n st st'
  unfolding first_bid owed
  first_bid-OwesMore symbol e bidder n bid st st' new h =
      let row : NameBid = record {
        newname = n;
        high_bidder = bidder;
        high_bid = bid;
        last_bid_time = e.now;
      } in
      let es : st' ≡ record st { namebids = store n row st.namebids } = ground arith in
      rw es (record {
        more =
            let f : find n (store n row st.namebids) ≡ some row =
              ground (arith, find-store n n row st.namebids) in
            rw (f, new) (omega int_laws);
        others = λ other ne. ground (arith, find-store other n row st.namebids);
        config = refl;
      })

  outbid-OwesMore :
      ⦃lib : AssetLib⦄ (symbol : ℕ) (e : Env) (bidder n : ℕ) (bid : Asset) (row : NameBid)
      (st st' : Tables)
      → find n st.namebids ≡ some row
      → outbid e bidder n bid row st ≡ ok st'
      → OwesMore symbol (value_in symbol bid) n st st'
  unfolding outbid owed
  outbid-OwesMore symbol e bidder n bid row st st' there h =
      let (_, _, h1) =
        >>=-eq-ok (check (ltb_ℤ (pos 0) row.high_bid.amount) "this auction has already closed") _
          h in
      let (_, _, h2) =
        >>=-eq-ok
          (check
            (ltb_ℤ (pos (pos_part row.high_bid.amount / 10)) (sub64 bid.amount row.high_bid.amount))
            "must increase bid by 10%")
          _ h1 in
      let (_, _, h3) =
        >>=-eq-ok (check (not (row.high_bidder == bidder)) "account is already highest bidder") _
          h2 in
      let (t, et, h4) = >>=-eq-ok (add_refund row (st.bidrefunds n)) _ h3 in
      let high : NameBid = record row {
        high_bidder = bidder;
        high_bid = bid;
        last_bid_time = e.now;
      } in
      let es : st' ≡ record st {
        bidrefunds = at_scope n t st.bidrefunds;
        namebids = store n high st.namebids;
      } =
        cc in
      let g = add_refund-sum symbol row (st.bidrefunds n) t et in
      rw es (record {
        more =
            let f : find n (store n high st.namebids) ≡ some high =
              ground (arith, find-store n n high st.namebids) in
            let self : at_scope n t st.bidrefunds n ≡ t = ground arith in
            rw (f, there, self) (omega (int_laws, ap pos_part g, ap neg_part g));
        others = λ other ne. ground (arith, find-store other n high st.namebids);
        config = refl;
      })

  enter_bid-OwesMore :
      ⦃lib : AssetLib⦄ (symbol : ℕ) (e : Env) (bidder n : ℕ) (bid : Asset) (st st' : Tables)
      → enter_bid e bidder n bid st ≡ ok st'
      → OwesMore symbol (value_in symbol bid) n st st'
  unfolding enter_bid
  enter_bid-OwesMore symbol e bidder n bid st st' h = elim (Option-cases (find n st.namebids)) [
    | inl new ↦ first_bid-OwesMore symbol e bidder n bid st st' new (ground arith)
    | inr (row, there) ↦ outbid-OwesMore symbol e bidder n bid row st st' there (ground arith)
  ]

  pub bidname-eq-ok :
      ⦃lib : AssetLib⦄ ⦃names : NameLib⦄ (e : Env) (bidder n : ℕ) (bid : Asset) (st : Tables)
      (r : Tables × List Send)
      → bidname e bidder n bid st ≡ ok r
      → (enter_bid e bidder n bid st ≡ ok r.0)
        × (e.has_auth bidder ≡ true)
        × (pos 1 ≤ℤ bid.amount)
        × (some bid.symbol ≡ st.config)
        × (r.1
            ≡ record {
              actor = bidder;
              contract = token_account;
              call = Call.transfer_one bidder e.self bid (bid_memo n);
            }
              ∷ [])
  unfolding bidname check_name
  bidname-eq-ok e bidder n bid st r h = ground arith

  -- A bid that goes through raises what is owed for its name by its amount, touches no other name,
  -- and is paid for: the bidder sends that amount, and nothing else is sent.
  pub bidname-OwesMore :
      ⦃lib : AssetLib⦄ ⦃names : NameLib⦄ (symbol : ℕ) (e : Env) (bidder n : ℕ) (bid : Asset)
      (st : Tables) (r : Tables × List Send)
      → bidname e bidder n bid st ≡ ok r
      → OwesMore symbol (value_in symbol bid) n st r.0
        × (r.1
            ≡ record {
              actor = bidder;
              contract = token_account;
              call = Call.transfer_one bidder e.self bid (bid_memo n);
            }
              ∷ [])
  bidname-OwesMore symbol e bidder n bid st r h =
      let (entered, _, _, _, sent) = bidname-eq-ok e bidder n bid st r h in
      (enter_bid-OwesMore symbol e bidder n bid st r.0 entered, sent)

  bidrefund-eq-ok :
      ⦃names : NameLib⦄ (e : Env) (bidder n : ℕ) (st : Tables) (r : Tables × List Send)
      → bidrefund e bidder n st ≡ ok r
      → (row : BidRefund) × (find bidder (st.bidrefunds n) ≡ some row)
        × (r.0
            ≡ record st { bidrefunds = at_scope n (erase bidder (st.bidrefunds n)) st.bidrefunds })
        × (r.1
            ≡ record {
              actor = e.self;
              contract = token_account;
              call = Call.transfer_one e.self bidder row.amount (refund_memo n);
            }
              ∷ [])
  unfolding bidrefund
  bidrefund-eq-ok e bidder n st r h =
      let (row, there, done) =
        >>=-eq-ok (or_fail (find bidder (st.bidrefunds n)) (message "refund not found")) _ h in
      (row, ground arith, ground arith, ground arith)

  -- A refund that goes through pays the bidder exactly what his row says, lowers what is owed for
  -- the name by that amount, touches no other name, and leaves no row to be paid again.
  pub bidrefund-owed :
      ⦃names : NameLib⦄ (symbol : ℕ) (e : Env) (bidder n : ℕ) (st : Tables) (r : Tables × List Send)
      → bidrefund e bidder n st ≡ ok r
      → (row : BidRefund) × (find bidder (st.bidrefunds n) ≡ some row)
        × (r.1
            ≡ record {
              actor = e.self;
              contract = token_account;
              call = Call.transfer_one e.self bidder row.amount (refund_memo n);
            }
              ∷ [])
        × (owed symbol n r.0 +ℤ value_in symbol row.amount ≡ owed symbol n st)
        × ((other : ℕ) → other ≢ n → owed symbol other r.0 ≡ owed symbol other st)
        × (find bidder (r.0.bidrefunds n) ≡ none)
  unfolding owed
  bidrefund-owed symbol e bidder n st r h =
      let (row, there, es, sent) = bidrefund-eq-ok e bidder n st r h in
      let t' = erase bidder (st.bidrefunds n) in
      let g0 = sum-erase (refund_amount symbol) bidder (st.bidrefunds n) in
      let g : sum (refund_amount symbol) t' +ℤ value_in symbol row.amount
          ≡ sum (refund_amount symbol) (st.bidrefunds n) =
        rw there at g0 in
      let self : at_scope n t' st.bidrefunds n ≡ t' = ground arith in
      (
        row,
        there,
        sent,
        rw (es, self) (omega (int_laws, ap pos_part g, ap neg_part g)),
        rw es (λ other ne. ground arith),
        rw (es, self) (ground (arith, find-erase bidder bidder (st.bidrefunds n))),
      )
