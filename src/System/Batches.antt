-- ===== src/System/Batches.antt =====
-- What `get_latest_block_batch_info` answers
-- (contracts/eosio.system/src/functions/functions.producers.cpp).
use twig_system_contracts.Prelude.{
  ℕ, Option, none, some, ◌+◌, ◌-◌, ◌%◌, ◌/◌, ◌*◌, ◌≤◌, ◌<◌, ◌==◌, arith, ◌≡◌, refl, ◌⊎◌, Bool-cases,
  Option-cases, inl, inr,
}
use native.Mathlib.Nat.{mod-lt, mod-add-div, mul-mod_right}
use twig_system_contracts.Chain.{MultiIndex, Table, find, rows}
use twig_system_contracts.System.Blocks.{
  BlockInfo, BatchInfo, ErrorCode, no_error, last_row, batch_from, get_latest_block_batch_info,
}

-- `info` is the batch that the block `latest` belongs to, where batches of `size` start at `offset`.
pub record IsBatch (offset size latest : ℕ) (info : BatchInfo) : Type 0 where
  pub ends : info.batch_current_end_height ≡ latest
  pub begins : offset ≤ info.batch_start_height
  pub aligned : (info.batch_start_height - offset) % size ≡ 0
  pub holds : info.batch_start_height ≤ latest
  pub short : latest < info.batch_start_height + size

start_IsBatch :
    (offset size latest : ℕ)
    → 0 < size
    → offset ≤ latest
    → let start = latest - (latest - offset) % size in
      (offset ≤ start) × ((start - offset) % size ≡ 0) × (start ≤ latest) × (latest < start + size)
start_IsBatch offset size latest some_size past =
    let d = latest - offset in
    let small = mod-lt d some_size in
    let split = mod-add-div d size in
    let multiple = mul-mod_right size (d / size) in
    let parts : latest - d % size - offset ≡ size * (d / size) = omega arith in
    (omega arith, rw parts multiple, omega arith, omega arith)

module _ ⦃mi : MultiIndex⦄ where
  -- The row that a batch starts with: the latest itself, or one that is found under its height.
  abbrev pub Starts : ℕ → ℕ → BlockInfo → Table BlockInfo → BlockInfo → Type 0
  Starts height timestamp latest t start =
      (start.block_height ≡ height)
      × (start.block_timestamp ≡ timestamp)
      × ((start ≡ latest) ⊎ (find height t ≡ some start))

  batch_from-some :
      (height : ℕ) (latest : BlockInfo) (start : Option BlockInfo) (info : BatchInfo)
      (code : ErrorCode)
      → batch_from height latest start ≡ record { result = some info; error_code = code }
      → (row : BlockInfo) × (start ≡ some row)
        × (row.block_height ≡ height)
        × (row.block_timestamp ≡ info.batch_start_timestamp)
        × (info.batch_start_height ≡ height)
        × (info.batch_current_end_height ≡ latest.block_height)
        × (info.batch_current_end_timestamp ≡ latest.block_timestamp)
        × (code ≡ no_error)
  batch_from-some height latest none info code h = absurd (ground arith)
  batch_from-some height latest (some row) info code h = (
    row,
    refl,
    ground arith,
    ground arith,
    ground arith,
    ground arith,
    ground arith,
    ground arith,
  )

  -- What a batch that is answered tells of the latest block.
  pub record Answers (offset size : ℕ) (t : Table BlockInfo) (info : BatchInfo) (latest : BlockInfo)
      : Type 0 where
    pub stored : last_row (rows t) ≡ some latest
    pub batch : IsBatch offset size latest.block_height info
    pub end_time : info.batch_current_end_timestamp ≡ latest.block_timestamp
    pub start : BlockInfo
    pub starts : Starts info.batch_start_height info.batch_start_timestamp latest t start

  answered :
      (offset size : ℕ) (t : Table BlockInfo) (info : BatchInfo) (code : ErrorCode)
      (latest : BlockInfo) (start : Option BlockInfo)
      → 0 < size
      → offset ≤ latest.block_height
      → last_row (rows t) ≡ some latest
      → batch_from (latest.block_height - (latest.block_height - offset) % size) latest start
        ≡ record { result = some info; error_code = code }
      → ((row : BlockInfo)
          → start ≡ some row
          → (row ≡ latest)
            ⊎ (find (latest.block_height - (latest.block_height - offset) % size) t ≡ some row))
      → Answers offset size t info latest × (code ≡ no_error)
  answered offset size t info code latest start some_size past there b origin =
      let height = latest.block_height - (latest.block_height - offset) % size in
      let (row, er, eh, et, ih, ie, it, ic) = batch_from-some height latest start info code b in
      let (begins, aligned, holds, short) =
        start_IsBatch offset size latest.block_height some_size past in
      (
        record {
          stored = there;
          batch = record {
            ends = ie;
            begins = rw ih begins;
            aligned = rw ih aligned;
            holds = rw ih holds;
            short = rw ih short;
          };
          end_time = it;
          start = row;
          starts = (rw ih eh, et, rw ih (origin row er));
        },
        ic,
      )

  -- A batch that is answered is the one of the latest recorded block: it ends there, starts at a
  -- multiple of the batch size after the offset, holds the latest block, and both ends are told
  -- with the times of their rows.
  pub get_latest_block_batch_info-IsBatch :
      (offset size : ℕ) (t : Table BlockInfo) (info : BatchInfo) (code : ErrorCode)
      → get_latest_block_batch_info offset size t ≡ record { result = some info; error_code = code }
      → ((latest : BlockInfo) × Answers offset size t info latest) × (code ≡ no_error)
  unfolding get_latest_block_batch_info
  get_latest_block_batch_info-IsBatch offset size t info code h =
      elim (Option-cases (last_row (rows t))) [
        | inl nothing ↦ absurd (ground arith)
        | inr (latest, there) ↦
            let height = latest.block_height - (latest.block_height - offset) % size in
            let some_size : 0 < size = ground arith in
            let past : offset ≤ latest.block_height = ground arith in
            elim (Bool-cases (height == latest.block_height)) [
              | inl same ↦
                  let b : batch_from height latest (some latest)
                      ≡ record { result = some info; error_code = code } =
                    ground arith in
                  let (answer, fine) =
                    answered offset size t info code latest (some latest) some_size past there b
                      (λ row e. inl (ground arith)) in
                  ((latest, answer), fine)
              | inr apart ↦
                  let b : batch_from height latest (find height t)
                      ≡ record { result = some info; error_code = code } =
                    ground arith in
                  let (answer, fine) =
                    answered offset size t info code latest (find height t) some_size past there b
                      (λ row e. inr e) in
                  ((latest, answer), fine)
            ]
      ]
