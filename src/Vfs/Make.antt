-- ===== src/Vfs/Make.antt =====
-- `create_directory` of src/fs/vfs.c.
use tomato_os.Base.{ℕ, ◌+◌, ◌*◌, Bool, ◌&&◌, not, none, some, ltb, ◌==◌, if◌then◌else◌}
use tomato_os.Base.Bytes.{Bytes}
use tomato_os.Base.Word.{sub32}
use tomato_os.Strings.{strlen}
use tomato_os.Kmem.{Kmem, kmalloc, kfree}
use tomato_os.Vfs.{
  File, Vfs, Made, made, refused, lost, astray, initial_capacity, max_files, max_filename, no_block,
  directory_mode, update, free_inode, set_name, is_full, grow,
}

-- The end of `create_directory`: the inode of the directory, and its entry in the root. The new
-- `Directory` itself is not reachable from anywhere.
unfoldable pub add_directory : Vfs → (name : Bytes) (inode_num : ℕ) → Vfs
add_directory v name inode_num =
    let file : File = record {
      name = set_name (v.files v.file_count).name name;
      inode_number = inode_num;
    } in
    record v {
      inode_table =
          update v.inode_table inode_num
            (record { mode = directory_mode; size = 0; blocks = λ j. no_block });
      files = update v.files v.file_count file;
      file_count = v.file_count + 1;
      total_files = v.total_files + 1;
      inode_count = sub32 v.inode_count 1;
    }

-- `sizeof(Directory)` and `sizeof(File)`
abbrev pub sizeof_directory : ℕ
sizeof_directory = 272

abbrev pub sizeof_file : ℕ
sizeof_file = 260

-- `create_directory`, with the heap. A name that is there already is only reported. Without a free
-- inode the code goes on out of bounds.
unfoldable pub create_directory :
    Vfs → Kmem → (name : Bytes) (limit : ℕ) (grown : Bool) → Made × Kmem
create_directory v k name limit grown =
    let (dir, k1) = kmalloc k sizeof_directory in
    let (files, k2) = kmalloc k1 (initial_capacity * sizeof_file) in
    let marked : ℕ → Vfs = λ inode_num. record (grow v) {
      inode_table =
          update v.inode_table inode_num
            (record { mode = directory_mode; size = 0; blocks = λ j. no_block });
    } in
    if ltb max_filename (strlen limit name 0)
    then (refused v, k)
    else if dir == 0
    then (refused v, k1)
    else if files == 0
    then (refused v, kfree k2 dir)
    else elim (free_inode v.inode_table 0 max_files) [
      | none ↦ (astray, k2)
      | some inode_num ↦
          if is_full v && not grown
          then (lost (marked inode_num), kfree (kfree k2 files) dir)
          else (made (add_directory (grow v) name inode_num), k2)
    ]
