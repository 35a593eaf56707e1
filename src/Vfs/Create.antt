-- ===== src/Vfs/Create.antt =====
-- `create_file` of src/fs/vfs.c: what is read back, and what the files before are left with.
use tomato_os.Base.{
  ℕ, ◌+◌, ◌-◌, ◌*◌, ◌≤◌, ◌<◌, ◌≡◌, refl, ap, ◌∙◌, ◌≢◌, ◌⊎◌, inl, inr, Bool, true, false, ◌&&◌, not,
  Option, none, some, arith, dec_lt, ◌==◌, if◌then◌else◌, ne→==, Bool-cases,
}
use tomato_os.Base.Bytes.{Bytes}
use tomato_os.Strings.{strlen}
use tomato_os.Strings.Names.{Ends, strcmp_iff_same}
use tomato_os.Vfs.{
  Vfs, Made, made, refused, lost, astray, max_files, max_datablocks, max_filename, block_size,
  no_block, free_block, find_file, same_name, is_full, grow, add_file, create_file, read_file,
}
use tomato_os.Vfs.Entry.{Entered, FileAdded, add_file-FileAdded}
use tomato_os.Vfs.Search.{
  First, absent, present, free_inode-First, free_block-First, find_file-First, First-none,
  First-some,
}
use mathlib.Core.Path.{subst}
use mathlib.Core.Bool.{false≢true}

-- Nothing but the capacity changes, and that only where the directory is full.
pub record Grown (v v' : Vfs) : Type 0 where
  pub same : v' ≡ record v { capacity = v'.capacity }
  pub twice : v.capacity ≤ v.file_count → v'.capacity ≡ v.capacity * 2
  pub kept : v.file_count < v.capacity → v'.capacity ≡ v.capacity

grow-Grown : (v : Vfs) → Grown v (grow v)
grow-Grown v = record { same = refl; twice = λ full. ground arith; kept = λ room. ground arith }

-- How a call of `create_file` ends.
pub data Ended (v : Vfs) (name content : Bytes) (limit : ℕ) (grown : Bool) : Made → Type 0 where
  no_inode :
      {v' : Vfs}
      → ((i : ℕ) → i < max_files → (v.inode_table i).mode ≢ 0)
      → (v.file_count < v.capacity) ⊎ (grown ≡ true)
      → Grown v v'
      → Ended v name content limit grown (refused v')
  no_directory :
      {v' : Vfs}
      → ((i : ℕ) → i < max_files → (v.inode_table i).mode ≢ 0)
      → v.capacity ≤ v.file_count
      → grown ≡ false
      → Grown v v'
      → Ended v name content limit grown (lost v')
  out_of_bounds :
      ((b : ℕ) → b < max_datablocks → v.data_blocks b 0 ≢ 0)
        ⊎ ((v.capacity ≤ v.file_count) × (grown ≡ false))
      → Ended v name content limit grown astray
  stored :
      {v' : Vfs} (i b : ℕ)
      → i < max_files
      → b < max_datablocks
      → (v.inode_table i).mode ≡ 0
      → v.data_blocks b 0 ≡ 0
      → FileAdded v name content (strlen limit content 0) i b v'
      → Ended v name content limit grown (made v')

-- Whether the directory is full and cannot grow.
failed_cases :
    (v : Vfs) (grown : Bool)
    → (((is_full v && not grown) ≡ true) × (v.capacity ≤ v.file_count) × (grown ≡ false))
      ⊎ (((is_full v && not grown) ≡ false) × ((v.file_count < v.capacity) ⊎ (grown ≡ true)))
failed_cases v grown = elim (Bool-cases grown) [
  | inl ok ↦ inr (ground arith, inr ok)
  | inr bad ↦ elim (dec_lt v.file_count v.capacity) [
    | yes room ↦ inr (ground arith, inl room)
    | no full ↦ inl (ground arith, omega arith, bad)
  ]
]

-- In the root directory, a file that is added to the grown directory is added to the one before.
regrow :
    (v : Vfs) (name content : Bytes) (size i b : ℕ) (v' : Vfs)
    → FileAdded (grow v) name content size i b v'
    → FileAdded v name content size i b v'
regrow v name content size i b v' a =
    let e = a.entered in
    record {
      entered = record {
        count = e.count;
        name_bytes = e.name_bytes;
        name_end = e.name_end;
        inode = e.inode;
        other_files = e.other_files;
        other_inodes = e.other_inodes;
        total_files = e.total_files;
        inode_count = e.inode_count;
      };
      mode = a.mode;
      file_size = a.file_size;
      first_block = a.first_block;
      bytes = a.bytes;
      other_blocks = a.other_blocks;
      total_size = a.total_size;
      free_blocks = a.free_blocks;
    }

with_block :
    (v : Vfs) (name content : Bytes) (limit : ℕ) (grown : Bool) (i : ℕ) {r : Option ℕ}
    → i < max_files
    → (v.inode_table i).mode ≡ 0
    → First (λ j. v.data_blocks j 0 == 0) 0 max_datablocks r
    → Ended v name content limit grown (elim r [
      | none ↦ astray
      | some b ↦
          if is_full v && not grown then astray else made (add_file (grow v) name content limit i b)
    ])
with_block v name content limit grown i lt free (absent none_left) =
    out_of_bounds (inl (λ b small. ground (arith, none_left b)))
with_block v name content limit grown i lt free (present b _ small free_b least) =
    elim (failed_cases v grown) [
      | inl (stuck, full, bad) ↦ rw stuck (out_of_bounds (inr (full, bad)))
      | inr (go, room) ↦ rw go (
          stored i b lt small free (ground arith) (
            regrow v name content (strlen limit content 0) i b
              (add_file (grow v) name content limit i b)
              (add_file-FileAdded (grow v) name content limit i b)))
    ]

pub create_file-Ended :
    (v : Vfs) (name content : Bytes) (limit : ℕ) (grown : Bool)
    → Ended v name content limit grown (create_file v name content limit grown)
unfolding create_file
create_file-Ended v name content limit grown = with_inode (free_inode-First v.inode_table max_files)
  where
    with_inode :
        {r : Option ℕ}
        → First (λ j. (v.inode_table j).mode == 0) 0 max_files r
        → Ended v name content limit grown (elim r [
          | none ↦ if is_full v && not grown then lost (grow v) else refused (grow v)
          | some i ↦ elim (free_block v.data_blocks 0 max_datablocks) [
            | none ↦ astray
            | some b ↦
                if is_full v && not grown
                then astray
                else made (add_file (grow v) name content limit i b)
          ]
        ])
    with_inode (absent none_left) =
        let all = λ (i : ℕ) (small : i < max_files).
          (let used : (v.inode_table i).mode ≢ 0 = ground (arith, none_left i) in used) in
        elim (failed_cases v grown) [
          | inl (stuck, full, bad) ↦ rw stuck (no_directory all full bad (grow-Grown v))
          | inr (go, room) ↦ rw go (no_inode all room (grow-Grown v))
        ]
    with_inode (present i _ small free least) =
        with_block v name content limit grown i small (ground arith)
          (free_block-First v.data_blocks max_datablocks)

-- The new entry is found by its name: the files before keep their place and their names.
find_file-Entered :
    (v v' : Vfs) (name : Bytes) (i n : ℕ)
    → Entered v name i v'
    → Ends name n
    → n < max_filename - 1
    → find_file v.files name 0 v.file_count ≡ none
    → find_file v'.files name 0 (v.file_count + 1) ≡ some v.file_count
find_file-Entered v v' name i n a e lt fresh =
    let k = v.file_count in
    First-some {test = λ j. same_name (v'.files j).name name} k
      (find_file-First v'.files name (k + 1)) (omega arith) (omega arith)
      ((strcmp_iff_same max_filename (v'.files k).name name n e (omega arith)).1
        (λ j le. a.name_bytes j (omega arith)))
      (λ j _ before.
        ap (λ f. same_name f.name name) (a.other_files j (omega arith))
        ∙ First-none (find_file-First v.files name k) fresh j (omega arith) before)

read_file-FileAdded :
    (v v' : Vfs) (name content : Bytes) (size i b n : ℕ)
    → FileAdded v name content size i b v'
    → Ends name n
    → n < max_filename - 1
    → b < max_datablocks
    → find_file v.files name 0 v.file_count ≡ none
    → read_file v' name ≡ some b
unfolding read_file
read_file-FileAdded v v' name content size i b n a e lt small fresh = rw (
  read_file,
  a.entered.count,
  find_file-Entered v v' name i n a.entered e lt fresh,
  a.entered.inode,
  a.mode,
  a.first_block,
  ne→== b no_block (omega arith),
)

abbrev is_made : Made → Bool
is_made (made v) = true
is_made _ = false

abbrev state_of : (default : Vfs) → Made → Vfs
state_of default (made v) = v
state_of default _ = default

-- The file that `create_file` has made is read back: where its name ends within the 254 bytes that
-- fit, and no file had that name, `read_file` then returns the block of the new file, and the block
-- holds the 4096 bytes from `data` on.
pub read_file-create_file :
    (v v' : Vfs) (name content : Bytes) (limit n : ℕ) (grown : Bool)
    → Ends name n
    → n < max_filename - 1
    → find_file v.files name 0 v.file_count ≡ none
    → create_file v name content limit grown ≡ made v'
    → (b : ℕ) × (b < max_datablocks)
      × (read_file v' name ≡ some b)
      × ((x : ℕ) → x < block_size → v'.data_blocks b x ≡ content x)
read_file-create_file v v' name content limit n grown e lt fresh h =
    read_back (create_file-Ended v name content limit grown) h
  where
    read_back :
        {r : Made}
        → Ended v name content limit grown r
        → r ≡ made v'
        → (b : ℕ) × (b < max_datablocks)
          × (read_file v' name ≡ some b)
          × ((x : ℕ) → x < block_size → v'.data_blocks b x ≡ content x)
    read_back (no_inode _ _ _) h' = absurd (false≢true (ap is_made h'))
    read_back (no_directory _ _ _ _) h' = absurd (false≢true (ap is_made h'))
    read_back (out_of_bounds why) h' = absurd (false≢true (ap is_made h'))
    read_back (stored i b small small_b free free_b a) h' =
        let a' =
          subst (FileAdded v name content (strlen limit content 0) i b) (ap (state_of v') h') a in
        (
          b,
          small_b,
          read_file-FileAdded v v' name content (strlen limit content 0) i b n a' e lt small_b
              fresh,
          a'.bytes,
        )
