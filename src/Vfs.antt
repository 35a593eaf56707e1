-- ===== src/Vfs.antt =====
-- The file system in memory of src/fs/vfs.c and src/include/vfs.h. An array is a function of its
-- index; what the program does out of the bounds of an array is not defined, and here it ends in
-- `none`. Log output is left out.
pub mod Search
pub mod Make
pub mod Entry
pub mod Create
pub mod Delete
pub mod Directory
mod Tests
use tomato_os.Base.{
  ℕ, zero, suc, ◌+◌, ◌-◌, ◌*◌, ◌^◌, Bool, true, false, ◌&&◌, ◌||◌, not, Option, none, some, List,
  [], ◌∷◌, ltb, leb, ◌==◌, if◌then◌else◌,
}
use tomato_os.Base.Bytes.{Bytes, splice}
use tomato_os.Base.Word.{add32, sub32, add64, sub64}
use tomato_os.Strings.{strcmp, strlen, poke}
use tomato_os.Kmem.{Kmem, kmalloc, kfree}

abbrev pub initial_capacity : ℕ
initial_capacity = 200

abbrev pub max_filename : ℕ
max_filename = 256

abbrev pub max_files : ℕ
max_files = 100

abbrev pub max_datablocks : ℕ
max_datablocks = 50

abbrev pub block_size : ℕ
block_size = 4096

abbrev pub max_block_number : ℕ
max_block_number = 50

abbrev pub myfs_magic : ℕ
myfs_magic = 0x1313_1313

-- `(uint32_t)-1`
abbrev pub no_block : ℕ
no_block = 2 ^ 32 - 1

-- The mode of a file and that of a directory, 0644 and 0755.
abbrev pub file_mode : ℕ
file_mode = 0x1A4

abbrev pub directory_mode : ℕ
directory_mode = 0x1ED

-- `File`
pub record File : Type 0 where
  pub name : Bytes
  pub inode_number : ℕ

-- `struct myfs_inode`
pub record Inode : Type 0 where
  pub mode : ℕ
  pub size : ℕ
  pub blocks : ℕ → ℕ

-- `VFS`, with the root directory and the superblock that it points to. `data_blocks` gives the bytes
-- of a block.
pub record Vfs : Type 0 where
  pub files : ℕ → File
  pub file_count : ℕ
  pub capacity : ℕ
  pub inode_table : ℕ → Inode
  pub data_blocks : ℕ → Bytes
  pub total_files : ℕ
  pub total_size : ℕ
  pub inode_count : ℕ
  pub free_blocks : ℕ

abbrev pub update : {A : Type 0} → (ℕ → A) → ℕ → A → ℕ → A
update f i v j = if i == j then v else f j

-- The loops that look for a free inode and a free block: the first index from `i` on, of `n`.
unfoldable pub free_inode : (ℕ → Inode) → (i n : ℕ) → Option ℕ
free_inode table i zero = none
free_inode table i (suc n) =
    let rest = free_inode table (i + 1) n in if (table i).mode == 0 then some i else rest

unfoldable pub free_block : (ℕ → Bytes) → (i n : ℕ) → Option ℕ
free_block blocks i zero = none
free_block blocks i (suc n) =
    let rest = free_block blocks (i + 1) n in if blocks i 0 == 0 then some i else rest

-- `strcmp(a, b) == 0` for a name of a file, which ends within MAX_FILENAME bytes.
abbrev pub same_name : (a b : Bytes) → Bool
same_name a b = let (x, y) = strcmp max_filename a b 0 in x == y

-- The loops that look for a file by its name, from index `i` on, of `n`.
unfoldable pub find_file : (ℕ → File) → (name : Bytes) (i n : ℕ) → Option ℕ
find_file files name i zero = none
find_file files name i (suc n) =
    let rest = find_file files name (i + 1) n in
    if same_name (files i).name name then some i else rest

-- `memcpy(file->name, name, MAX_FILENAME - 1); file->name[MAX_FILENAME - 1] = '\0';`
abbrev pub set_name : (old name : Bytes) → Bytes
set_name old name = poke (splice old 0 name 0 (max_filename - 1)) (max_filename - 1) 0

-- How `create_file` and `create_directory` end: with 0, or with -1; with -1 and `root->files` null,
-- where `krealloc` has failed, so that the files of that state are lost; or out of the bounds of an
-- array.
pub data Made : Type 0 where
  made : Vfs → Made
  refused : Vfs → Made
  lost : Vfs → Made
  astray : Made

-- The root directory grows when it is full; `krealloc` keeps the files, where it does not fail.
abbrev pub is_full : Vfs → Bool
is_full v = leb v.capacity v.file_count

abbrev pub grow : Vfs → Vfs
grow v = record v { capacity = if is_full v then v.capacity * 2 else v.capacity }

-- The end of `create_file`, once it has an inode and a block. `limit` is more than the length of
-- `data`, here `content`.
unfoldable pub add_file : Vfs → (name content : Bytes) (limit inode_num block_num : ℕ) → Vfs
add_file v name content limit inode_num block_num =
    let inode = v.inode_table inode_num in
    let size = strlen limit content 0 in
    let file : File = record {
      name = set_name (v.files v.file_count).name name;
      inode_number = inode_num;
    } in
    record v {
      inode_table =
          update v.inode_table inode_num
            (record { mode = file_mode; size = size; blocks = update inode.blocks 0 block_num });
      data_blocks =
          update v.data_blocks block_num (splice (v.data_blocks block_num) 0 content 0 block_size);
      files = update v.files v.file_count file;
      file_count = v.file_count + 1;
      total_files = v.total_files + 1;
      total_size = add64 v.total_size size;
      free_blocks = sub32 v.free_blocks 1;
      inode_count = sub32 v.inode_count 1;
    }

-- `create_file`. `grown` is whether `krealloc` succeeds where the directory is full.
unfoldable pub create_file : Vfs → (name content : Bytes) (limit : ℕ) (grown : Bool) → Made
create_file v name content limit grown =
    let v' = grow v in
    let failed = is_full v && not grown in
    elim (free_inode v.inode_table 0 max_files) [
      | none ↦ if failed then lost v' else refused v'
      | some inode_num ↦ elim (free_block v.data_blocks 0 max_datablocks) [
        | none ↦ astray
        | some block_num ↦
            if failed then astray else made (add_file v' name content limit inode_num block_num)
      ]
    ]

-- `read_file`: the number of the block whose data is returned, or null.
unfoldable pub read_file : Vfs → (name : Bytes) → Option ℕ
read_file v name = elim (find_file v.files name 0 v.file_count) [
  | none ↦ none
  | some i ↦
      let inode = v.inode_table (v.files i).inode_number in
      if inode.mode == directory_mode
      then none
      else if inode.blocks 0 == no_block
      then none
      else some (inode.blocks 0)
]

-- The loop of `delete_file` that clears the blocks of an inode, from entry `j` on, of `n`.
unfoldable pub clear_blocks :
    (ℕ → Bytes) → (free_blocks : ℕ) (entries : ℕ → ℕ) (j n : ℕ) → (ℕ → Bytes) × ℕ
clear_blocks blocks free_blocks entries j zero = (blocks, free_blocks)
clear_blocks blocks free_blocks entries j (suc n) =
    let present = not (entries j == no_block) in
    clear_blocks
      (if present
        then update blocks (entries j) (splice (blocks (entries j)) 0 (λ i. 0) 0 block_size)
        else blocks)
      (if present then add32 free_blocks 1 else free_blocks) entries (j + 1) n

abbrev pub empty_inode : Inode
empty_inode = record { mode = 0; size = 0; blocks = λ j. no_block }

-- The end of `delete_file`, for the file at index `i`. The size that is subtracted from the total
-- has been set to 0 before.
unfoldable pub remove_file : Vfs → (i : ℕ) → Vfs
remove_file v i =
    let inode_num = (v.files i).inode_number in
    let (blocks, free_blocks) =
      clear_blocks v.data_blocks v.free_blocks (v.inode_table inode_num).blocks 0
        max_block_number in
    let table = update v.inode_table inode_num empty_inode in
    record v {
      data_blocks = blocks;
      free_blocks = free_blocks;
      inode_table = table;
      inode_count = add32 v.inode_count 1;
      files = λ j. if leb i j && ltb j (v.file_count - 1) then v.files (j + 1) else v.files j;
      file_count = v.file_count - 1;
      total_files = v.total_files - 1;
      total_size = sub64 v.total_size (table inode_num).size;
    }

-- `delete_file`: whether it returns 0, or -1.
unfoldable pub delete_file : Vfs → (name : Bytes) → Bool × Vfs
delete_file v name = elim (find_file v.files name 0 v.file_count) [
  | none ↦ (false, v)
  | some i ↦ (true, remove_file v i)
]
