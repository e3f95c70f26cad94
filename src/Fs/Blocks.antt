-- ===== src/Fs/Blocks.antt =====
-- Data blocks: data_block_alloc, data_block_free and data_block_get of fs/state.c.
use proj_so.Prelude.{
  ℕ, none, some, update, find_index, ℤ, minus_one, index, to_int, M, ok, ◌>>◌, pure, always_assert,
  modify,
}
use proj_so.Fs.State.{Tfs, free, taken, is_free, valid_block_number}

unfoldable pub data_block_alloc : M Tfs ℤ
data_block_alloc s =
    elim (find_index s.fs_params.max_block_count (λ i. is_free (s.free_blocks i))) [
      | none ↦ ok minus_one s
      | some i ↦ ok (to_int i) (record s { free_blocks = update s.free_blocks i taken })
    ]

unfoldable pub data_block_free : ℤ → M Tfs (Unit {0})
data_block_free block_number = do
  always_assert (λ s. valid_block_number s block_number)
  modify (λ s. record s { free_blocks = update s.free_blocks (index block_number) free })

-- The pointer to a block is its number: its bytes are `fs_data` at that number.
unfoldable pub data_block_get : ℤ → M Tfs ℕ
data_block_get block_number = do
  always_assert (λ s. valid_block_number s block_number)
  pure (index block_number)
