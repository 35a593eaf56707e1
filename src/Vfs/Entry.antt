-- ===== src/Vfs/Entry.antt =====
-- What `create_file` and `create_directory` of src/fs/vfs.c leave in the root directory and in the
-- table of inodes.
use tomato_os.Base.{ℕ, ◌+◌, ◌-◌, ◌%◌, ◌^◌, ◌<◌, ◌≡◌, refl, sym, ◌≢◌, arith, ==_refl, ne→==}
use tomato_os.Base.Bytes.{Bytes}
use tomato_os.Strings.{strlen}
use tomato_os.Vfs.{Vfs, add_file}
use tomato_os.Vfs.Make.{add_directory}

-- The root directory of `v'` is that of `v` with one entry more, at its end: its name is the first 255
-- bytes from `name` on, with a 0 behind them, and its inode is number `i`, which only is changed.
pub record Entered (v : Vfs) (name : Bytes) (i : ℕ) (v' : Vfs) : Type 0 where
  pub count : v'.file_count ≡ v.file_count + 1
  pub name_bytes : (j : ℕ) → j < 255 → (v'.files v.file_count).name j ≡ name j
  pub name_end : (v'.files v.file_count).name 255 ≡ 0
  pub inode : (v'.files v.file_count).inode_number ≡ i
  pub other_files : (j : ℕ) → j ≢ v.file_count → v'.files j ≡ v.files j
  pub other_inodes : (j : ℕ) → j ≢ i → v'.inode_table j ≡ v.inode_table j
  pub total_files : v'.total_files ≡ v.total_files + 1
  pub inode_count : v'.inode_count ≡ (v.inode_count + 2 ^ 32 - 1) % 2 ^ 32

-- A file of the bytes from `content` on, in block `b`, which only is written.
pub record FileAdded (v : Vfs) (name content : Bytes) (size i b : ℕ) (v' : Vfs) : Type 0 where
  pub entered : Entered v name i v'
  pub mode : (v'.inode_table i).mode ≡ 0x1A4
  pub file_size : (v'.inode_table i).size ≡ size
  pub first_block : (v'.inode_table i).blocks 0 ≡ b
  pub bytes : (x : ℕ) → x < 4096 → v'.data_blocks b x ≡ content x
  pub other_blocks : (c : ℕ) → c ≢ b → v'.data_blocks c ≡ v.data_blocks c
  pub total_size : v'.total_size ≡ (v.total_size + size) % 2 ^ 64
  pub free_blocks : v'.free_blocks ≡ (v.free_blocks + 2 ^ 32 - 1) % 2 ^ 32

-- An empty directory, which takes no block.
pub record DirectoryAdded (v : Vfs) (name : Bytes) (i : ℕ) (v' : Vfs) : Type 0 where
  pub entered : Entered v name i v'
  pub mode : (v'.inode_table i).mode ≡ 0x1ED
  pub size : (v'.inode_table i).size ≡ 0
  pub blocks : (j : ℕ) → (v'.inode_table i).blocks j ≡ 2 ^ 32 - 1
  pub data_blocks : v'.data_blocks ≡ v.data_blocks
  pub total_size : v'.total_size ≡ v.total_size
  pub free_blocks : v'.free_blocks ≡ v.free_blocks
  pub capacity : v'.capacity ≡ v.capacity

add_file-Entered :
    (v : Vfs) (name content : Bytes) (limit i b : ℕ)
    → Entered v name i (add_file v name content limit i b)
unfolding add_file
add_file-Entered v name content limit i b = record {
  count = refl;
  name_bytes = λ j lt. rw (==_refl v.file_count) (ground arith);
  name_end = rw (==_refl v.file_count) (ground arith);
  inode = rw (==_refl v.file_count);
  other_files = λ j other. rw (ne→== v.file_count j (λ e. other (sym e)));
  other_inodes = λ j other. rw (ne→== i j (λ e. other (sym e)));
  total_files = refl;
  inode_count = refl;
}

pub add_file-FileAdded :
    (v : Vfs) (name content : Bytes) (limit i b : ℕ)
    → FileAdded v name content (strlen limit content 0) i b (add_file v name content limit i b)
unfolding add_file
add_file-FileAdded v name content limit i b = record {
  entered = add_file-Entered v name content limit i b;
  mode = rw (==_refl i);
  file_size = rw (==_refl i);
  first_block = rw (==_refl i);
  bytes = λ x lt. rw (==_refl b) (ground arith);
  other_blocks = λ c other. rw (ne→== b c (λ e. other (sym e)));
  total_size = refl;
  free_blocks = refl;
}

add_directory-Entered : (v : Vfs) (name : Bytes) (i : ℕ) → Entered v name i (add_directory v name i)
unfolding add_directory
add_directory-Entered v name i = record {
  count = refl;
  name_bytes = λ j lt. rw (==_refl v.file_count) (ground arith);
  name_end = rw (==_refl v.file_count) (ground arith);
  inode = rw (==_refl v.file_count);
  other_files = λ j other. rw (ne→== v.file_count j (λ e. other (sym e)));
  other_inodes = λ j other. rw (ne→== i j (λ e. other (sym e)));
  total_files = refl;
  inode_count = refl;
}

pub add_directory-DirectoryAdded :
    (v : Vfs) (name : Bytes) (i : ℕ) → DirectoryAdded v name i (add_directory v name i)
unfolding add_directory
add_directory-DirectoryAdded v name i = record {
  entered = add_directory-Entered v name i;
  mode = rw (==_refl i);
  size = rw (==_refl i);
  blocks = λ j. rw (==_refl i);
  data_blocks = refl;
  total_size = refl;
  free_blocks = refl;
  capacity = refl;
}
