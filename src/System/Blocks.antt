-- ===== src/System/Blocks.antt =====
-- The rolling window of recent blocks
-- (contracts/eosio.system/src/functions/functions.producers.cpp).
use twig_system_contracts.Prelude.{
  byte, ℕ, zero, suc, true, false, Option, none, some, List, [], ◌∷◌, ◌+◌, ◌-◌, ◌*◌, ◌%◌, ◌^◌, max,
  ltb, leb, ◌==◌, not, if◌then◌else◌,
}
use twig_system_contracts.Chain.{MultiIndex, Table, find, rows, erase, emplace, Result, ok, ◌>>=◌}

abbrev pub rolling_window_size : ℕ
rolling_window_size = 10

pub record BlockInfo : Type 0 where
  pub version : ℕ
  pub block_height : ℕ
  pub block_timestamp : ℕ

-- The shifted bytes do not overlap, so that `|` is their sum.
unfoldable pub block_height_from_id : List ℕ → ℕ
block_height_from_id id =
    (byte 0 id * 2 ^ 24 + byte 1 id * 2 ^ 16 + byte 2 id * 2 ^ 8 + byte 3 id) % 2 ^ 32

pub record BatchInfo : Type 0 where
  pub batch_start_height : ℕ
  pub batch_start_timestamp : ℕ
  pub batch_current_end_height : ℕ
  pub batch_current_end_timestamp : ℕ

pub data ErrorCode : Type 0 where
  no_error : ErrorCode
  invalid_input : ErrorCode
  unsupported_version : ErrorCode
  insufficient_data : ErrorCode

-- latest_block_batch_info_result
pub record BatchResult : Type 0 where
  pub result : Option BatchInfo
  pub error_code : ErrorCode

abbrev pub failed : ErrorCode → BatchResult
failed code = record { result = none; error_code = code }

-- `--cend()`
abbrev pub last_row : List (ℕ × BlockInfo) → Option BlockInfo
last_row [] = none
last_row (e ∷ []) = some e.1
last_row (e ∷ f ∷ rest) = last_row (f ∷ rest)

module _ ⦃mi : MultiIndex⦄ where
  -- The loop that erases from the front: `count` rows at most, up to a height.
  unfoldable pub prune : ℕ → ℕ → List (ℕ × BlockInfo) → Table BlockInfo → Table BlockInfo
  prune last_prunable count [] t = t
  prune last_prunable zero (e ∷ rest) t = t
  prune last_prunable (suc count) ((key, row) ∷ rest) t =
      elim (leb row.block_height last_prunable) [
        | true ↦ prune last_prunable count rest (erase key t)
        | false ↦ t
      ]

  unfoldable pub add_to_blockinfo_table : List ℕ → ℕ → Table BlockInfo → Result (Table BlockInfo)
  unfolding prune block_height_from_id
  add_to_blockinfo_table previous_block_id timestamp t =
      let new_block_height = (block_height_from_id previous_block_id + 1) % 2 ^ 32 in
      let last_prunable = max new_block_height rolling_window_size - rolling_window_size in
      do
        added ←
            emplace new_block_height
              (record { version = 0; block_height = new_block_height; block_timestamp = timestamp })
              t
        ok (prune last_prunable 2 (rows added) added)

  -- What is answered once the first block of the batch is looked up.
  abbrev pub batch_from : ℕ → BlockInfo → Option BlockInfo → BatchResult
  batch_from start_height latest none = failed insufficient_data
  batch_from start_height latest (some start) =
      if not (start.block_height == start_height)
      then failed insufficient_data
      else if not (start.version == 0)
      then failed unsupported_version
      else (record {
        result = some (record {
          batch_start_height = start_height;
          batch_start_timestamp = start.block_timestamp;
          batch_current_end_height = latest.block_height;
          batch_current_end_timestamp = latest.block_timestamp;
        });
        error_code = no_error;
      })

  -- What is answered once there is a latest block.
  abbrev pub batch_until : ℕ → ℕ → BlockInfo → Table BlockInfo → BatchResult
  batch_until offset batch_size latest t =
      let start_height = latest.block_height - (latest.block_height - offset) % batch_size in
      if not (latest.version == 0)
      then failed unsupported_version
      else if ltb latest.block_height offset
      then failed insufficient_data
      else if start_height == latest.block_height
      then batch_from start_height latest (some latest)
      else batch_from start_height latest (find start_height t)

  unfoldable pub get_latest_block_batch_info : ℕ → ℕ → Table BlockInfo → BatchResult
  get_latest_block_batch_info batch_start_height_offset batch_size t =
      if batch_size == 0 then failed invalid_input else elim (last_row (rows t)) [
        | none ↦ failed insufficient_data
        | some latest ↦ batch_until batch_start_height_offset batch_size latest t
      ]

  abbrev pub erase_rows : List (ℕ × BlockInfo) → Table BlockInfo → Table BlockInfo
  erase_rows [] t = t
  erase_rows ((key, row) ∷ rest) t = erase_rows rest (erase key t)
