-- ===== src/System/Startup.antt =====
-- Once it is set up, the chain keeps going (contracts/eosio.system/src/actions/1.config.cpp: init;
-- contracts/eosio.system/src/actions/4.tokenomics.cpp: onblock).
mod Tests
use twig_system_contracts.Prelude.{
  ℕ, suc, false, Option, some, List, [], ◌∷◌, ◌+◌, ◌*◌, ◌^◌, ◌≤◌, ◌<◌, ◌≡◌, refl, sym, ap, ◌∙◌,
  subst, true, length, arith,
}
use twig_system_contracts.Chain.{
  MultiIndex, NameLib, Env, Send, Result, ok, ◌>>=◌, >>=-ok, require_auth, demand,
  missing_authority,
}
use twig_system_contracts.System.State.{LuckyNumber}
use twig_system_contracts.System.Blocks.{block_height_from_id}
use twig_system_contracts.System.Window.{IsRecent}
use twig_system_contracts.System.Lucky.{IsLucky}
use twig_system_contracts.System.Producers.{Global, IsUnvoted}
use twig_system_contracts.System.Onblock.{
  BlockHeader, Core, Library, onblock, Blocks, onblock-Blocks,
}
use twig_system_contracts.System.Config.{
  Parameters, ChainParams, init, first_global, first_lucky, with_singletons,
}

-- Blocks whose previous ones have the heights that follow each other from the first.
abbrev pub Consecutive : ℕ → List BlockHeader → Type 0
Consecutive height [] = Unit
Consecutive height (header ∷ headers) =
    (block_height_from_id header.previous ≡ height) × Consecutive (suc height) headers

module _ (lib : Library) ⦃mi : MultiIndex⦄ ⦃names : NameLib⦄ where
  -- Ready for `n` more blocks after the one of the height.
  pub record IsReady (height n : ℕ) (s : Core) : Type 0 where
    pub global : Global
    pub has_global : s.registry.global ≡ some global
    pub lucky : LuckyNumber
    pub has_lucky : s.lucky ≡ some lucky
    pub well : IsLucky lucky
    pub room : lucky.epoch + n < 2 ^ 32
    pub low : height + n < 2 ^ 32
    pub recent : IsRecent height s.blockinfo
    pub unvoted : IsUnvoted s.registry.producers

  abbrev pub run_blocks : Env → List BlockHeader → Core → Result Core
  run_blocks e [] s = ok s
  run_blocks e (header ∷ headers) s = onblock lib e header s >>= λ r. run_blocks e headers r.0

  next-IsReady :
      (e : Env) (header : BlockHeader) (n : ℕ) (s : Core)
      → e.has_auth e.self ≡ true
      → IsReady (block_height_from_id header.previous) (suc n) s
      → (s' : Core) × (sends : List Send) × (onblock lib e header s ≡ ok (s', sends))
        × IsReady (suc (block_height_from_id header.previous)) n s'
  next-IsReady e header n s signed r =
      let room = r.room in
      let low = r.low in
      let (s', sends, went, b) =
        onblock-Blocks lib e header r.global r.lucky s signed r.has_global r.has_lucky r.well
          (omega arith) (omega arith) r.recent r.unvoted in
      let up = b.advanced.one_epoch in
      (
        s',
        sends,
        went,
        record {
          global = r.global;
          has_global = ap (λ g. g.global) b.same_registry ∙ r.has_global;
          lucky = b.next;
          has_lucky = b.stored;
          well = b.advanced.lucky_still;
          room = omega arith;
          low = omega arith;
          recent = b.moved.recent;
          unvoted = subst (λ g. IsUnvoted g.producers) (sym b.same_registry) r.unvoted;
        },
      )

  run_blocks-IsReady :
      (e : Env) (headers : List BlockHeader) (height : ℕ) (s : Core)
      → e.has_auth e.self ≡ true
      → Consecutive height headers
      → IsReady height (length headers) s
      → (s' : Core) × (run_blocks e headers s ≡ ok s') × IsReady (height + length headers) 0 s'
  run_blocks-IsReady e [] height s signed line r =
      (s, refl, subst (λ k. IsReady k 0 s) (omega arith) r)
  run_blocks-IsReady e (header ∷ headers) height s signed (at, line) r =
      let n = length headers in
      let (t, sends, went, now) =
        next-IsReady e header n s signed (subst (λ k. IsReady k (suc n) s) (sym at) r) in
      let next = subst (λ k. IsReady (suc k) n t) at now in
      let (s', all, last) = run_blocks-IsReady e headers (suc height) t signed line next in
      (
        s',
        >>=-ok (onblock lib e header s) (λ r. run_blocks e headers r.0) went ∙ all,
        subst (λ k. IsReady k 0 s') (omega arith) last,
      )

  -- After `init`, sent by the contract itself on a chain where no producer has votes and the table
  -- of recent blocks is as some block left it, every run of blocks that follow each other goes
  -- through, with as many blocks as fit before a height or the epoch wraps round, and leaves the
  -- rows in place for the next block.
  pub init-run_blocks :
      (params : Parameters) (e : Env) (chainparams : Option (ChainParams params))
      (headers : List BlockHeader) (height : ℕ) (s : Core)
      → e.has_auth e.self ≡ true
      → IsRecent height s.blockinfo
      → IsUnvoted s.registry.producers
      → Consecutive height headers
      → height + length headers + 1 < 2 ^ 32
      → (s' : Core) × ((init params e false chainparams s >>= λ r. run_blocks e headers r.1)
          ≡ ok s')
        × IsReady (height + length headers) 0 s'
  unfolding init
  init-run_blocks params e chainparams headers height s signed recent none_yet line small =
      let t = with_singletons (some first_global) (some first_lucky) s in
      let ready : IsReady height (length headers) t = record {
        global = first_global;
        has_global = refl;
        lucky = first_lucky;
        has_lucky = refl;
        well = record { chunks = omega arith; begun = omega arith };
        room = omega arith;
        low = omega arith;
        recent = recent;
        unvoted = none_yet;
      } in
      let (s', all, last) = run_blocks-IsReady e headers height t signed line ready in
      (s', rw signed all, last)
