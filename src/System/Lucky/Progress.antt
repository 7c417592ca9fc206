-- ===== src/System/Lucky/Progress.antt =====
-- The lucky number counts the hits: chunks are the low digit, epochs the high one
-- (contracts/eosio.system/src/functions/functions.tokenomics.cpp).
use twig_system_contracts.Prelude.{
  ℕ, List, [], ◌∷◌, ◌+◌, ◌-◌, ◌*◌, ◌%◌, ◌^◌, ◌≤◌, ◌<◌, ltb, leb, if◌then◌else◌, arith, ◌≡◌, refl,
  ◌∙◌, Bool-cases, inl, inr,
}
use twig_system_contracts.Chain.{Env, Send, Call}
use twig_system_contracts.System.State.{LuckyNumber, lucky_number_chunks, bank_account}
use twig_system_contracts.System.Random.{Provider, Scale}
use twig_system_contracts.System.Lucky.Blocks.{hit, roll_of, on_a_lucky_block}

-- The number of hits that a lucky number stands for, an epoch being one more than its chunks.
abbrev pub progress : LuckyNumber → ℕ
progress lucky = lucky.epoch * (lucky_number_chunks + 1) - lucky.chunks_remaining

-- No more chunks remain than an epoch has, and an epoch has begun.
pub record IsLucky (lucky : LuckyNumber) : Type 0 where
  pub chunks : lucky.chunks_remaining ≤ lucky_number_chunks
  pub begun : 0 < lucky.epoch

-- One for a block that hits, and zero for another.
abbrev pub hit_of : Scale → LuckyNumber → Provider → ℕ
hit_of scale lucky p = if leb 16 (roll_of scale lucky p) then 0 else 1

-- What a block does to the count of hits, the epoch and what is sent.
pub record Advances (e : Env) (gain : ℕ) (lucky lucky' : LuckyNumber) (sent : List Send)
    : Type 0 where
  pub lucky_still : IsLucky lucky'
  pub counted : progress lucky' ≡ progress lucky + gain
  pub one_epoch : lucky'.epoch ≤ lucky.epoch + 1
  pub same_odds : lucky'.odds ≡ lucky.odds
  pub told : sent ≡ (
      if ltb lucky.epoch lucky'.epoch
      then record {
        actor = bank_account;
        contract = bank_account;
        call = Call.onepoch lucky'.epoch;
      }
        ∷ []
      else if ltb lucky'.chunks_remaining lucky.chunks_remaining
      then record { actor = e.self; contract = e.self; call = Call.onchunk } ∷ []
      else [])

hit-Advances :
    (e : Env) (producer : ℕ) (lucky : LuckyNumber)
    → IsLucky lucky
    → lucky.epoch + 1 < 2 ^ 32
    → Advances e 1 lucky (hit e producer lucky).0 (hit e producer lucky).1
hit-Advances e producer lucky h room =
    let a = h.chunks in
    let b = h.begun in
    elim (Bool-cases (ltb 0 lucky.chunks_remaining)) [
      | inl more ↦ rw more (record {
        lucky_still = record { chunks = ground arith; begun = b };
        counted = ground arith;
        one_epoch = omega arith;
        same_odds = refl;
        told = ground arith;
      })
      | inr done ↦
          let wrapped : (lucky.epoch + 1) % 2 ^ 32 ≡ lucky.epoch + 1 = omega arith in
          rw (done, wrapped)
            (record {
              lucky_still = record { chunks = omega arith; begun = omega arith };
              counted = ground arith;
              one_epoch = omega arith;
              same_odds = refl;
              told = ground arith;
            })
    ]

-- A block keeps the lucky number well formed and adds one to its count of hits if it hits, and
-- nothing otherwise. It tells the bank of a new epoch by the number that is then stored, and the
-- contract itself of a chunk, and nothing is sent otherwise.
pub on_a_lucky_block-Advances :
    (scale : Scale) (e : Env) (producer : ℕ) (lucky : LuckyNumber) (p : Provider)
    → IsLucky lucky
    → lucky.epoch + 1 < 2 ^ 32
    → Advances e
        (hit_of scale lucky p)
        lucky
        (on_a_lucky_block scale e producer lucky p).0.0
        (on_a_lucky_block scale e producer lucky p).0.1
unfolding on_a_lucky_block
on_a_lucky_block-Advances scale e producer lucky p h room =
    let counted = record lucky { total_blocks = (lucky.total_blocks + 1) % 2 ^ 64 } in
    elim (Bool-cases (leb 16 (roll_of scale lucky p))) [
      | inl missed ↦ rw missed (record {
        lucky_still = record { chunks = h.chunks; begun = h.begun };
        counted = omega arith;
        one_epoch = omega arith;
        same_odds = refl;
        told = ground arith;
      })
      | inr won ↦
          let start : IsLucky counted = record { chunks = h.chunks; begun = h.begun } in
          let a = hit-Advances e producer counted start room in
          rw won (record {
            lucky_still = a.lucky_still;
            counted = a.counted;
            one_epoch = a.one_epoch;
            same_odds = a.same_odds;
            told = a.told;
          })
    ]

-- The blocks of a run: their producers, and the objects that their numbers are drawn from.
abbrev pub Draws : Type 0
Draws = List (ℕ × Provider)

abbrev pub draw_count : Draws → ℕ
draw_count [] = 0
draw_count (d ∷ draws) = draw_count draws + 1

module _ (scale : Scale) (e : Env) where
  abbrev pub after_draw : LuckyNumber → ℕ × Provider → LuckyNumber
  after_draw lucky d = (on_a_lucky_block scale e d.0 lucky d.1).0.0

  abbrev pub after_draws : LuckyNumber → Draws → LuckyNumber
  after_draws lucky [] = lucky
  after_draws lucky (d ∷ draws) = after_draws (after_draw lucky d) draws

  -- How many of the blocks of a run hit.
  abbrev pub hits : LuckyNumber → Draws → ℕ
  hits lucky [] = 0
  hits lucky (d ∷ draws) = hit_of scale lucky d.1 + hits (after_draw lucky d) draws

  -- After any run of blocks the lucky number has grown by the number of blocks that hit, for a
  -- well-formed one whose epoch is so small that it cannot wrap round in so many blocks, and it
  -- is still well formed: no block but a hit moves the count of chunks and epochs.
  pub after_draws-progress :
      (lucky : LuckyNumber) (draws : Draws)
      → IsLucky lucky
      → lucky.epoch + draw_count draws < 2 ^ 32
      → IsLucky (after_draws lucky draws)
        × (progress (after_draws lucky draws) ≡ progress lucky + hits lucky draws)
  after_draws-progress lucky [] h room = (h, omega arith)
  after_draws-progress lucky (d ∷ draws) h room =
      let a = on_a_lucky_block-Advances scale e d.0 lucky d.1 h (omega arith) in
      let up = a.one_epoch in
      let count = a.counted in
      let (kept, rest) =
        after_draws-progress (after_draw lucky d) draws a.lucky_still (omega arith) in
      (kept, rest ∙ grind (arith, count))

  -- If more of the blocks of a run hit than there are chunks that remain, an epoch ends: for a
  -- well-formed lucky number whose epoch cannot wrap round in the run, the epoch has grown by
  -- the end of it.
  pub after_draws-epoch :
      (lucky : LuckyNumber) (draws : Draws)
      → IsLucky lucky
      → lucky.epoch + draw_count draws < 2 ^ 32
      → lucky.chunks_remaining < hits lucky draws
      → lucky.epoch < (after_draws lucky draws).epoch
  after_draws-epoch lucky draws h room more =
      let (kept, count) = after_draws-progress lucky draws h room in
      let a = kept.chunks in let b = h.chunks in let c = h.begun in grind (arith, count)
