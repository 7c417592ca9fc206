-- ===== src/System/Random/Halving.antt =====
-- The loop of get_uint64 that makes an index ends
-- (contracts/eosio.system/include/headers/RandomnessProvider.hpp).
use mathlib.Core.Logic.{dite}
use mathlib.Core.WellFounded.{Acc}
use native.Mathlib.Decide.{dec_lt}
use twig_system_contracts.Prelude.{
  ℕ, zero, suc, ◌/◌, ◌%◌, ◌^◌, ◌<◌, ltb, if◌then◌else◌, lt_wf, arith, ◌≡◌, refl, Bool-cases, inl,
  inr,
}
use twig_system_contracts.System.Random.Rolls.{fold_acc, fold}

-- The test of the loop and its body, once.
abbrev pub halved : ℕ → ℕ
halved shuffle = if ltb shuffle 32 then shuffle else shuffle / 2 % 2 ^ 8

abbrev pub halved_times : ℕ → ℕ → ℕ
halved_times zero shuffle = shuffle
halved_times (suc n) shuffle = halved_times n (halved shuffle)

-- `n` rounds of the loop are enough.
abbrev EndsIn : ℕ → ℕ → Type 0
EndsIn zero shuffle = shuffle < 32
EndsIn (suc n) shuffle = 31 < shuffle → EndsIn n (shuffle / 2 % 2 ^ 8)

small_stays : (n shuffle : ℕ) → shuffle < 32 → halved_times n shuffle ≡ shuffle
small_stays zero shuffle small = refl
small_stays (suc n) shuffle small = ground (arith, small_stays n shuffle small)

-- Both branches of a decided choice.
dite_same :
    {P : Type 0} {C : Type 0} (d : Dec P) (x : P → C) (y : ¬ P → C) (c : C)
    → ((p : P) → x p ≡ c)
    → ((n : ¬ P) → y n ≡ c)
    → dite d x y ≡ c
dite_same (yes p) x y c f g = f p
dite_same (no n) x y c f g = g n

fold_acc-halved_times :
    (n shuffle : ℕ) (w : Acc ◌<◌ shuffle)
    → EndsIn n shuffle
    → (fold_acc shuffle w ≡ halved_times n shuffle) × (halved_times n shuffle < 32)
unfolding fold_acc
fold_acc-halved_times zero shuffle (Acc.intro _ smaller) small =
    (dite_same (dec_lt 31 shuffle) _ _ shuffle (λ big. absurd (omega arith)) (λ low. refl), small)
fold_acc-halved_times (suc n) shuffle (Acc.intro _ smaller) small =
    elim (Bool-cases (ltb shuffle 32)) [
      | inl low ↦
          let below : shuffle < 32 = ground arith in
          let stays = small_stays n shuffle below in
          rw (low, stays)
            (
              dite_same (dec_lt 31 shuffle) _ _ shuffle (λ big. absurd (omega arith)) (λ low. refl),
              below,
            )
      | inr high ↦
          let half = shuffle / 2 % 2 ^ 8 in
          let above : 31 < shuffle = ground arith in
          let fits = small above in
          rw high (
            dite_same (dec_lt 31 shuffle) _ _ (halved_times n half)
                (λ big. (fold_acc-halved_times n half (smaller half (omega arith)) fits).0)
                (λ low. absurd (low above)),
            (fold_acc-halved_times n half (smaller half (omega arith)) fits).1,
          )
    ]

-- Whatever number it starts with, the loop that makes an index of 32 out of it ends after at most
-- four rounds, below 32: four guarded halvings give its result.
pub fold-halved_times :
    (shuffle : ℕ) → (fold shuffle ≡ halved_times 4 shuffle) × (halved_times 4 shuffle < 32)
unfolding fold
fold-halved_times shuffle =
    fold_acc-halved_times 4 shuffle (lt_wf.apply shuffle) (λ a b c d. omega arith)
