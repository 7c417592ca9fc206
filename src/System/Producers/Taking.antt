-- ===== src/System/Producers/Taking.antt =====
-- Which producers the loop of an election takes
-- (contracts/eosio.system/src/functions/functions.producers.cpp: update_elected_producers).
use twig_system_contracts.Prelude.{
  ℕ, zero, suc, Bool, true, false, none, some, List, [], ◌∷◌, ◌++◌, ◌≤◌, length, map, SortedFrom,
  sort_by-SortedFrom, count, count-sort_by, arith, ◌≡◌, refl, ap, ◌⊎◌, Bool-cases, Option-cases,
  inl, inr,
}
use twig_system_contracts.Chain.{MultiIndex, Table, find, rows}
use twig_system_contracts.System.Producers.State.{
  Producer, Finalizer, positive, by_votes, double_place,
}
use twig_system_contracts.System.Producers.Policy.{is_empty}
use twig_system_contracts.System.Producers.Elections.{
  prototalvote, top_of, electable, keyed_finalizer,
}

-- A producer that stands for election.
pub record IsStanding (row : Producer) : Type 0 where
  pub voted : positive row.total_votes ≡ true
  pub is_active : row.is_active ≡ true

module _ ⦃mi : MultiIndex⦄ (finalizers : Table Finalizer) where
  -- The finalizer of a producer has an active key.
  abbrev pub IsKeyed : Producer → Finalizer → Type 0
  IsKeyed row f = (find row.owner finalizers ≡ some f) × (is_empty f.active_key_binary ≡ false)

  abbrev pub IsKeyless : Producer → Type 0
  IsKeyless row =
      (f : Finalizer) → find row.owner finalizers ≡ some f → is_empty f.active_key_binary ≡ true

  -- Of producers that all stand, those are taken, in their order, whose finalizer has an active key.
  abbrev pub Takes : List Producer → List (Producer × Finalizer) → Type 0
  Takes [] top = top ≡ []
  Takes (row ∷ passed) [] = IsStanding row × IsKeyless row × Takes passed []
  Takes (row ∷ passed) (t ∷ top) =
      IsStanding row
      × (((t.0 ≡ row) × IsKeyed row t.1 × Takes passed top)
          ⊎ (IsKeyless row × Takes passed (t ∷ top)))

  -- The producer that comes next, if any, does not stand.
  abbrev pub IsEnd : List Producer → Type 0
  IsEnd [] = Unit
  IsEnd (row ∷ rest) = (positive row.total_votes ≡ false) ⊎ (row.is_active ≡ false)

  -- The producers are taken from the beginning of a list, up to one that does not stand or until
  -- there is no room for more.
  pub record IsTaken (room : ℕ) (index : List Producer) (top : List (Producer × Finalizer))
      : Type 0 where
    pub passed : List Producer
    pub rest : List Producer
    pub split : index ≡ passed ++ rest
    pub taken : Takes passed top
    pub few : length top ≤ room
    pub ended : (length top ≡ room) ⊎ IsEnd rest

  Takes-skip :
      (row : Producer) (passed : List Producer) (top : List (Producer × Finalizer))
      → IsStanding row
      → IsKeyless row
      → Takes passed top
      → Takes (row ∷ passed) top
  Takes-skip row passed [] stands keyless t = (stands, keyless, t)
  Takes-skip row passed (x ∷ top) stands keyless t = (stands, inr (keyless, t))

  keyed :
      (row : Producer) (f : Finalizer)
      → keyed_finalizer row.owner finalizers ≡ some f
      → IsKeyed row f
  keyed row f h = (ground arith, ground arith)

  keyless : (row : Producer) → keyed_finalizer row.owner finalizers ≡ none → IsKeyless row
  keyless row h f there = ground arith

  top_of-IsTaken :
      (room : ℕ) (index : List Producer) → IsTaken room index (top_of finalizers room index)
  unfolding top_of
  top_of-IsTaken zero index = record {
    passed = [];
    rest = index;
    split = refl;
    taken = refl;
    few = omega arith;
    ended = inl refl;
  }
  top_of-IsTaken (suc room) [] = record {
    passed = [];
    rest = [];
    split = refl;
    taken = refl;
    few = omega arith;
    ended = inr tt;
  }
  top_of-IsTaken (suc room) (row ∷ index) =
      let skipped = top_of-IsTaken (suc room) index in
      let more = top_of-IsTaken room index in
      elim (Bool-cases (electable row)) [
        | inr over ↦ rw over (record {
          passed = [];
          rest = row ∷ index;
          split = refl;
          taken = refl;
          few = omega arith;
          ended = inr (ground arith);
        })
        | inl next ↦
            let stands : IsStanding row = record {
              voted = ground arith;
              is_active = ground arith;
            } in
            elim (Option-cases (keyed_finalizer row.owner finalizers)) [
              | inl none_there ↦
                  rw (next, none_there)
                    (record {
                      passed = row ∷ skipped.passed;
                      rest = skipped.rest;
                      split = ap (λ l. row ∷ l) skipped.split;
                      taken =
                          Takes-skip row skipped.passed (top_of finalizers (suc room) index) stands
                            (keyless row none_there) skipped.taken;
                      few = skipped.few;
                      ended = skipped.ended;
                    })
              | inr (f, there) ↦
                  rw (next, there)
                    (record {
                      passed = row ∷ more.passed;
                      rest = more.rest;
                      split = ap (λ l. row ∷ l) more.split;
                      taken = (stands, inl (refl, keyed row f there, more.taken));
                      few = let n = more.few in omega arith;
                      ended = elim more.ended [ inl full ↦ inl (omega arith) | inr e ↦ inr e ];
                    })
            ]
      ]

-- The rows of the producers in the order of their votes, as the second index has them, and the
-- producers that are taken from it.
pub record IsTop ⦃mi : MultiIndex⦄ (finalizers : Table Finalizer) (producers : Table Producer)
    (room : ℕ) (top : List (Producer × Finalizer)) : Type 0 where
  pub index : List Producer
  pub same_rows : (p : Producer → Bool) → count p index ≡ count p (map (λ r. r.1) (rows producers))
  pub by_vote : SortedFrom (λ row. double_place (by_votes row)) 0 index
  pub is_taken : IsTaken finalizers room index top

pub top_of-IsTop :
    ⦃mi : MultiIndex⦄ (finalizers : Table Finalizer) (producers : Table Producer) (room : ℕ)
    → IsTop finalizers producers room (top_of finalizers room (prototalvote producers))
unfolding prototalvote
top_of-IsTop finalizers producers room = record {
  index = prototalvote producers;
  same_rows =
      λ p. count-sort_by p (λ row. double_place (by_votes row)) (map (λ r. r.1) (rows producers));
  by_vote =
      sort_by-SortedFrom (λ row. double_place (by_votes row)) (map (λ r. r.1) (rows producers));
  is_taken = top_of-IsTaken finalizers room (prototalvote producers);
}
