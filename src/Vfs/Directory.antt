-- ===== src/Vfs/Directory.antt =====
-- How `create_directory` of src/fs/vfs.c ends.
use tomato_os.Base.{ℕ, ◌*◌, ◌≤◌, ◌<◌, ◌≡◌, ◌≢◌}
use tomato_os.Base.Bytes.{Bytes}
use tomato_os.Strings.{strlen}
use tomato_os.Kmem.{Kmem, kmalloc, kfree}
use tomato_os.Vfs.{Vfs, Made, made, refused, astray, initial_capacity, max_files, max_filename}
use tomato_os.Vfs.Make.{sizeof_directory, sizeof_file}
use tomato_os.Vfs.Entry.{DirectoryAdded}

module _ (v : Vfs) (k : Kmem) (name : Bytes) (limit : ℕ) where
  abbrev dir_block : ℕ × Kmem
  dir_block = kmalloc k sizeof_directory

  abbrev files_block : ℕ × Kmem
  files_block = kmalloc dir_block.1 (initial_capacity * sizeof_file)

  -- How a call of `create_directory` ends, where the root directory is not full.
  pub data DirectoryEnded : Made × Kmem → Type 0 where
    too_long : max_filename < strlen limit name 0 → DirectoryEnded (refused v, k)
    no_directory : dir_block.0 ≡ 0 → DirectoryEnded (refused v, dir_block.1)
    no_files : files_block.0 ≡ 0 → DirectoryEnded (refused v, kfree files_block.1 dir_block.0)
    out_of_bounds :
        ((i : ℕ) → i < max_files → (v.inode_table i).mode ≢ 0)
        → DirectoryEnded (astray, files_block.1)
    added :
        {v' : Vfs} (i : ℕ)
        → strlen limit name 0 ≤ max_filename
        → i < max_files
        → (v.inode_table i).mode ≡ 0
        → DirectoryAdded v name i v'
        → DirectoryEnded (made v', files_block.1)
