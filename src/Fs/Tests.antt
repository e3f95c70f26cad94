-- ===== src/Fs/Tests.antt =====
-- Small states of the file system, each made from the one before as the calls make it.
pub mod Examples
pub mod Idle
mod Full
use proj_so.Prelude.{
  ℕ, zero, suc, ◌∙◌, ◌≡◌, refl, true, false, List, [], ◌∷◌, none, some, pos, arith, Found,
}
use proj_so.Fs.State.{Tfs, TfsParams, Mallocs, Inode, t_file, free, is_free, OpenFileEntry}
use proj_so.Fs.Mutex.{Mutex}
use proj_so.Fs.Directory.Entries.{IsFileName}
use proj_so.Fs.Invariant.{IsFileInode, IsValid, lookup, NotOpen}
use proj_so.Fs.Init.{
  ParamsFit, rooted, initialised, IsEmpty, initialised-IsEmpty, rooted-IsValid, all_unused,
  lookup-rooted,
}
use proj_so.Fs.Open.{HasRoom, created, created-IsValid, lookup-created, file_entry}
use proj_so.Fs.Rewrite.{written, written-IsValid, Owns, lookup-written}
use proj_so.Fs.Write.{in_new, in_new-Owns, free_block}
use proj_so.Fs.Update.{with_handle, with_handle-IsValid}
use proj_so.Fs.Lookup.{IsOpen}
use proj_so.Fs.Handles.{closed, closed-IsValid}

abbrev pub working_mutex : Mutex
working_mutex = record {
  lock = λ _. (pos 0, true);
  unlock = λ _. (pos 0, false);
  lock_free = refl;
  unlock_held = refl;
}

-- Memory whose every byte is 7, as malloc may return it.
abbrev pub some_inode : Inode
some_inode = record { i_node_type = t_file; i_size = 7; i_data_block = pos 7 }

abbrev pub some_entry : OpenFileEntry
some_entry = record { of_inumber = pos 7; of_offset = 7 }

abbrev pub mallocs : Mallocs
mallocs = record {
  inode_table = some (λ _. some_inode);
  freeinode_ts = some (λ _. free);
  fs_data = some (λ _ _. 7);
  free_blocks = some (λ _. free);
  open_file_table = some (λ _. some_entry);
  free_open_file_entries = some (λ _. free);
}

abbrev pub small : TfsParams
small = record {
  max_inode_count = 3;
  max_block_count = 3;
  max_open_files_count = 2;
  block_size = 100;
}

abbrev pub unborn : Tfs
unborn = record {
  fs_params = small;
  live = false;
  inode_table = λ _. some_inode;
  freeinode_ts = λ _. free;
  fs_data = λ _ _. 0;
  free_blocks = λ _. free;
  open_file_table = λ _. some_entry;
  free_open_file_entries = λ _. free;
  library_mutex = false;
}

abbrev path_a : List ℕ
path_a = b'/' ∷ b'a' ∷ []

abbrev pub name_a : List ℕ
name_a = b'a' ∷ []

abbrev pub text : List ℕ
text = 1 ∷ 2 ∷ 3 ∷ []

-- After tfs_init; after the creation of "/a"; after a write of three bytes to it; after its second
-- opening; and after its first handle alone is closed.
abbrev pub started : Tfs
started = rooted (initialised unborn small mallocs)

abbrev pub with_a : Tfs
with_a = created started name_a 1 0 0

abbrev pub with_text : Tfs
with_text = written with_a 0 1 (in_new with_a 0 1 1 text 3)

abbrev pub opened_twice : Tfs
opened_twice = with_handle with_text 1 (file_entry (pos 1) 0)

abbrev pub closed_a : Tfs
closed_a = closed with_text 0

pub small-ParamsFit : ParamsFit small
small-ParamsFit = record {
  inodes = omega arith;
  blocks = omega arith;
  opens = omega arith;
  block = omega arith;
  some_inode = omega arith;
  some_block = omega arith;
  some_byte = omega arith;
}

pub name_a-IsFileName : IsFileName name_a
name_a-IsFileName = record {
  bytes = (omega arith, tt);
  some_byte = omega arith;
  fits = omega arith;
}

started-IsEmpty : IsEmpty (initialised unborn small mallocs)
started-IsEmpty = initialised-IsEmpty unborn small mallocs small-ParamsFit refl

pub started-IsValid : IsValid started
started-IsValid = rooted-IsValid (initialised unborn small mallocs) started-IsEmpty

pub started-HasRoom : HasRoom started 1 0 0
started-HasRoom = record {
  inode = record {
    below = omega arith;
    passes = started-IsEmpty.inodes 1 (omega arith);
    first = λ j q. ground arith;
  };
  entry = record {
    below = omega arith;
    passes = all_unused (initialised unborn small mallocs) started-IsEmpty 0 (omega arith);
    first = λ j q. absurd (omega arith);
  };
  handle = record {
    below = omega arith;
    passes = started-IsEmpty.handles 0 (omega arith);
    first = λ j q. absurd (omega arith);
  };
}

pub started-lookup : lookup started name_a ≡ none
started-lookup =
    lookup-rooted (initialised unborn small mallocs) started-IsEmpty name_a name_a-IsFileName

pub with_a-IsValid : IsValid with_a
with_a-IsValid =
    created-IsValid started started-IsValid name_a name_a-IsFileName started-lookup 1 0 0
      started-HasRoom

pub with_a-lookup : lookup with_a name_a ≡ some (pos 1)
with_a-lookup =
    lookup-created started started-IsValid name_a name_a-IsFileName started-lookup 1 0 0
      started-HasRoom

pub with_a-IsOpen : IsOpen with_a 0
with_a-IsOpen = record { below = omega arith; in_use = refl }

pub with_a-room : Found 3 (free_block with_a) 1
with_a-room = record {
  below = omega arith;
  passes = started-IsEmpty.blocks 1 (omega arith);
  first = λ j q. ground arith;
}

a-IsFileInode : IsFileInode with_a (pos 1)
a-IsFileInode = record { valid = refl; in_use = refl; file = refl }

text_there : Owns with_a 1 (in_new with_a 0 1 1 text 3)
text_there =
    in_new-Owns with_a with_a-IsValid 0 (pos 1) a-IsFileInode text 3 (omega arith) (omega arith) 1
      with_a-room

pub with_text-IsValid : IsValid with_text
with_text-IsValid =
    written-IsValid with_a with_a-IsValid 0 (pos 1) a-IsFileInode (in_new with_a 0 1 1 text 3)
      text_there refl

pub with_text-lookup : lookup with_text name_a ≡ some (pos 1)
with_text-lookup =
    lookup-written with_a with_a-IsValid 0 (pos 1) a-IsFileInode (in_new with_a 0 1 1 text 3)
      text_there refl name_a
    ∙ with_a-lookup

pub with_text-IsOpen : IsOpen with_text 0
with_text-IsOpen = record { below = omega arith; in_use = refl }

pub with_text-room : Found 2 (λ h. is_free (with_text.free_open_file_entries h)) 1
with_text-room = record {
  below = omega arith;
  passes = started-IsEmpty.handles 1 (omega arith);
  first = λ j q. ground arith;
}

pub opened_twice-IsValid : IsValid opened_twice
opened_twice-IsValid =
    with_handle-IsValid with_text 1 (file_entry (pos 1) 0) with_text-IsValid
      (record { valid = refl; in_use = refl; file = refl }) (omega arith)

pub opened_twice-IsOpen : IsOpen opened_twice 1
opened_twice-IsOpen = record { below = omega arith; in_use = refl }

pub closed_a-IsValid : IsValid closed_a
closed_a-IsValid = closed-IsValid with_text 0 with_text-IsValid

pub closed_a-NotOpen : NotOpen closed_a (pos 1)
closed_a-NotOpen zero p q e = cc
closed_a-NotOpen (suc zero) p q e =
    let f : is_free (closed_a.free_open_file_entries 1) ≡ true =
      started-IsEmpty.handles 1 (omega arith) in
    cc
closed_a-NotOpen (suc (suc h)) p q e = absurd (omega arith)
