-- ===== src/Fs/Twice.antt =====
-- A second tfs_init: state_init stores the sizes before it tests whether there is a file system.
use proj_so.Prelude.{◌≡◌, ◌≢◌, refl, sym, ◌∙◌, some, minus_one, ok}
use proj_so.Fs.State.{Tfs, TfsParams, Mallocs, state_init}
use proj_so.Fs.Operations.{tfs_init}
use proj_so.Fs.Invariant.{IsValid}

-- tfs_init with another block size, of a well formed file system, returns -1 and leaves the new sizes
-- over the old arrays: nothing but the sizes changes, and the state is not well formed.
pub tfs_init-twice :
    (s : Tfs) (p : TfsParams) (m : Mallocs)
    → IsValid s
    → p.block_size ≢ s.fs_params.block_size
    → (s' : Tfs) × (tfs_init (some p) m s ≡ ok minus_one s')
      × (s'.fs_params ≡ p)
      × (s' ≡ record s { fs_params = p })
      × (¬ IsValid s')
unfolding tfs_init state_init
tfs_init-twice s p m v other = (
  record s { fs_params = p },
  rw v.root.alive refl,
  refl,
  refl,
  λ u. other (sym u.root.root_size ∙ v.root.root_size),
)
