-- ===== src/System/Recording.antt =====
-- Recording a block moves the window on by one
-- (contracts/eosio.system/src/functions/functions.producers.cpp).
use twig_system_contracts.Prelude.{
  ℕ, suc, none, some, List, ◌+◌, ◌-◌, ◌%◌, ◌^◌, ◌<◌, max, arith, ◌≡◌, ◌≢◌, ◌∙◌, refl, sym,
  Option-cases, inl, inr,
}
use twig_system_contracts.Chain.{
  MultiIndex, Table, find, rows, store, find-store, find-rows, rows-IsAscending, ok,
}
use twig_system_contracts.System.Blocks.{
  BlockInfo, rolling_window_size, block_height_from_id, prune, add_to_blockinfo_table,
}
use twig_system_contracts.System.Window.{
  IsRecent, IsKeyed, info_of, prune-above, prune-keeps, lookup-Keyed, lookup-AscendingFrom,
}

module _ ⦃mi : MultiIndex⦄ where
  -- `t'` is the window `t` moved on to the block `height`: its row is there, the rows are recent,
  -- and those that are still in the window are as they were, block 0 aside.
  pub record MovesOn (height timestamp : ℕ) (t t' : Table BlockInfo) : Type 0 where
    pub recent : IsRecent height t'
    pub new_row : find height t' ≡ some (info_of height timestamp)
    pub kept :
        (k : ℕ) → 0 < k → k ≢ height → height < k + rolling_window_size → find k t' ≡ find k t

  stored-IsKeyed :
      (height timestamp : ℕ) (t : Table BlockInfo)
      → IsKeyed t
      → IsKeyed (store height (info_of height timestamp) t)
  stored-IsKeyed height timestamp t keyed k row h =
      ground (arith, find-store k height (info_of height timestamp) t, keyed k row)

  pruned-MovesOn :
      (height timestamp : ℕ) (t : Table BlockInfo)
      → IsRecent height t
      → MovesOn (suc height) timestamp t (
          prune
            (max (suc height) rolling_window_size - rolling_window_size)
            2
            (rows (store (suc height) (info_of (suc height) timestamp) t))
            (store (suc height) (info_of (suc height) timestamp) t))
  pruned-MovesOn height timestamp t recent =
      let last = max (suc height) rolling_window_size - rolling_window_size in
      let new = info_of (suc height) timestamp in
      let added = store (suc height) new t in
      let keyed = stored-IsKeyed (suc height) timestamp t recent.keyed in
      let listed_keyed =
        lookup-Keyed 0 (rows added) (rows-IsAscending added)
          (λ k row e. keyed k row (find-rows k added ∙ e)) in
      let up = lookup-AscendingFrom last 0 (rows added) (rows-IsAscending added) (λ k row e.
        let there = find-rows k added ∙ e in
        ground (arith, find-store k (suc height) new t, recent.fresh k row)) in
      let left =
        prune-above last last 2 (rows added) added up (omega arith)
          (λ k row e. sym (find-rows k added) ∙ e) listed_keyed in
      record {
        recent = record {
          keyed = λ k row h. keyed k row (left k row h).0;
          past = λ k row h.
              let there = (left k row h).0 in
              ground (arith, find-store k (suc height) new t, recent.past k row);
          fresh = λ k row h. let above = (left k row h).1 in ground arith;
        };
        new_row =
            prune-keeps last 2 (rows added) added (suc height) listed_keyed (ground arith)
            ∙ ground (arith, find-store (suc height) (suc height) new t);
        kept = λ k some_block other young.
            prune-keeps last 2 (rows added) added k listed_keyed (ground arith)
            ∙ ground (arith, find-store k (suc height) new t);
      }

  -- Where the window is of the blocks up to the previous one, whose height the id gives, recording
  -- a block goes through and moves the window on to it: two erased rows at most are enough.
  pub add_to_blockinfo_table-MovesOn :
      (id : List ℕ) (timestamp : ℕ) (t : Table BlockInfo)
      → suc (block_height_from_id id) < 2 ^ 32
      → IsRecent (block_height_from_id id) t
      → (t' : Table BlockInfo) × (add_to_blockinfo_table id timestamp t ≡ ok t')
        × MovesOn (suc (block_height_from_id id)) timestamp t t'
  unfolding add_to_blockinfo_table
  add_to_blockinfo_table-MovesOn id timestamp t small recent =
      let height = block_height_from_id id in
      let e : (height + 1) % 2 ^ 32 ≡ suc height = omega arith in
      let free : find (suc height) t ≡ none = elim (Option-cases (find (suc height) t)) [
        | inl nothing ↦ nothing
        | inr (row, there) ↦ absurd (ground (arith, recent.past (suc height) row there))
      ] in
      (
        prune (max (suc height) rolling_window_size - rolling_window_size) 2
            (rows (store (suc height) (info_of (suc height) timestamp) t))
            (store (suc height) (info_of (suc height) timestamp) t),
        rw (e, free) refl,
        pruned-MovesOn height timestamp t recent,
      )
