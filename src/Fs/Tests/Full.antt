-- ===== src/Fs/Tests/Full.antt =====
-- A file system whose directory has one entry, and the theorem on a full directory there.
use proj_so.Prelude.{
  ℕ, ◌≡◌, ◌≢◌, refl, ap, ◌∙◌, false, List, [], ◌∷◌, none, some, arith, Option, ℤ, get_or,
  find_index, find_index_of_none, Found, pos, minus_one, ok,
}
use proj_so.Fs.State.{Tfs, TfsParams, max_dir_entries}
use proj_so.Fs.Directory.Entries.{IsFileName}
use proj_so.Fs.Directory.Layout.{unused}
use proj_so.Fs.Directory.Find.{Listed-of_lookup}
use proj_so.Fs.Invariant.{IsValid, root_entries, lookup, view_at, view}
use proj_so.Fs.Init.{
  rooted, initialised, IsEmpty, initialised-IsEmpty, rooted-IsValid, all_unused, lookup-rooted,
  view-rooted,
}
use proj_so.Fs.Open.{HasRoom, free_inode, created, created-IsValid, lookup-created, view-created_ne}
use proj_so.Fs.Lookup.{path}
use proj_so.Fs.Operations.{tfs_open, tfs_o_creat}
use proj_so.Fs.Rollback.{tfs_open-full}
use proj_so.Fs.Tests.{working_mutex, unborn, mallocs, name_a, name_a-IsFileName}

abbrev narrow : TfsParams
narrow = record {
  max_inode_count = 3;
  max_block_count = 2;
  max_open_files_count = 1;
  block_size = 50;
}

abbrev base : Tfs
base = initialised unborn narrow mallocs

abbrev one_file : Tfs
one_file = created (rooted base) name_a 1 0 0

abbrev name_b : List ℕ
name_b = b'b' ∷ []

name_b-IsFileName : IsFileName name_b
name_b-IsFileName = record {
  bytes = (omega arith, tt);
  some_byte = omega arith;
  fits = omega arith;
}

base-IsEmpty : IsEmpty base
base-IsEmpty =
    initialised-IsEmpty unborn narrow mallocs
      (record {
        inodes = omega arith;
        blocks = omega arith;
        opens = omega arith;
        block = omega arith;
        some_inode = omega arith;
        some_block = omega arith;
        some_byte = omega arith;
      })
      refl

base-HasRoom : HasRoom (rooted base) 1 0 0
base-HasRoom = record {
  inode = record {
    below = omega arith;
    passes = base-IsEmpty.inodes 1 (omega arith);
    first = λ j q. ground arith;
  };
  entry = record {
    below = omega arith;
    passes = all_unused base base-IsEmpty 0 (omega arith);
    first = λ j q. absurd (omega arith);
  };
  handle = record {
    below = omega arith;
    passes = base-IsEmpty.handles 0 (omega arith);
    first = λ j q. absurd (omega arith);
  };
}

base-lookup : lookup (rooted base) name_a ≡ none
base-lookup = lookup-rooted base base-IsEmpty name_a name_a-IsFileName

one_file-IsValid : IsValid one_file
one_file-IsValid =
    created-IsValid (rooted base) (rooted-IsValid base base-IsEmpty) name_a name_a-IsFileName
      base-lookup 1 0 0 base-HasRoom

names_apart : name_a ≢ name_b
names_apart e = omega (arith, ap (λ (xs : List ℕ). get_or xs 0 0) e)

view_at-none : (s : Tfs) (found : Option ℤ) → view_at s found ≡ none → found ≡ none
view_at-none s none e = refl
view_at-none s (some x) e = cc

b_absent : lookup one_file name_b ≡ none
b_absent = view_at-none one_file (lookup one_file name_b) (
    view-created_ne (rooted base) (rooted-IsValid base base-IsEmpty) name_a name_a-IsFileName
      base-lookup 1 0 0 base-HasRoom name_b name_b-IsFileName names_apart
    ∙ view-rooted base base-IsEmpty name_b name_b-IsFileName)

a_listed : lookup one_file name_a ≡ some (pos 1)
a_listed =
    lookup-created (rooted base) (rooted-IsValid base base-IsEmpty) name_a name_a-IsFileName
      base-lookup 1 0 0 base-HasRoom

no_entry : find_index (max_dir_entries one_file) (unused (root_entries one_file)) ≡ none
no_entry =
    let (k, listed, _) =
      Listed-of_lookup (max_dir_entries one_file) (root_entries one_file) name_a name_a-IsFileName
        (pos 1) a_listed in
    find_index_of_none (max_dir_entries one_file) (unused (root_entries one_file))
      (λ j h. let e : k ≡ j = omega (arith, listed.below) in rw (← e) listed.used)

third_inode : Found 3 (free_inode one_file) 2
third_inode = record {
  below = omega arith;
  passes = base-IsEmpty.inodes 2 (omega arith);
  first = λ j q. ground arith;
}

tfs_open-full_example :
    (s' : Tfs) × (tfs_open working_mutex (path name_b) tfs_o_creat one_file ≡ ok minus_one s')
    × IsValid s'
    × (s'.library_mutex ≡ false)
    × ((k : ℕ) → free_inode s' k ≡ free_inode one_file k)
    × ((t : List ℕ) → IsFileName t → view s' t ≡ view one_file t)
tfs_open-full_example =
    tfs_open-full working_mutex one_file name_b tfs_o_creat 2 one_file-IsValid refl
      name_b-IsFileName b_absent refl third_inode no_entry
