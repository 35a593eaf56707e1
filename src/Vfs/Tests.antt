-- ===== src/Vfs/Tests.antt =====
-- Runs of src/fs/vfs.c, after the suite `test_vfs` there, and the theorems at them.
use tomato_os.Base.{
  ◌+◌, false, ℕ, zero, suc, ◌≤◌, ◌<◌, ◌≡◌, refl, ◌≢◌, ◌↔◌, true, none, some, List, [], ◌∷◌, arith,
}
use tomato_os.Base.Bytes.{Bytes}
use tomato_os.Strings.{strcmp, strlen, memmove}
use tomato_os.Strings.Move.{moved, memmove-moved}
use tomato_os.Strings.Names.{Ends, strcmp_iff_same, same_name}
use tomato_os.Vfs.{
  Vfs, max_files, max_datablocks, block_size, initial_capacity, no_block, find_file, free_inode,
  free_block, add_file, made, create_file, read_file, delete_file, clear_blocks, remove_file,
}
use tomato_os.Vfs.Create.{read_file-create_file}
use tomato_os.Vfs.Delete.{Deleted, AtMostOne, delete_file-Deleted}
use tomato_os.Kmem.{Kmem, heap_size}

abbrev text : List ℕ → Bytes
text [] i = 0
text (c ∷ cs) zero = c
text (c ∷ cs) (suc i) = text cs i

-- "hi" and "yo"
abbrev hi : Bytes
hi = text (104 ∷ 105 ∷ [])

abbrev yo : Bytes
yo = text (121 ∷ 111 ∷ [])

hi-Ends : Ends hi 2
hi-Ends = record { at_end = refl; before = ends }
  where
    ends : (i : ℕ) → i < 2 → hi i ≢ 0
    ends zero lt e = ground arith
    ends (suc zero) lt e = ground arith
    ends (suc (suc i)) lt e = ground arith

-- The state that `init_vfs` leaves.
abbrev initial : Vfs
initial = record {
  files = λ i. record { name = λ j. 0; inode_number = 0 };
  file_count = 0;
  capacity = initial_capacity;
  inode_table = λ i. record { mode = 0; size = 0; blocks = λ j. no_block };
  data_blocks = λ b i. 0;
  total_files = 0;
  total_size = 0;
  inode_count = max_files;
  free_blocks = max_datablocks;
}

abbrev with_hi : Vfs
with_hi = add_file initial hi yo 10 0 0

created : create_file initial hi yo 10 true ≡ made with_hi
unfolding create_file free_inode free_block
created = refl

read_back : read_file with_hi hi ≡ some 0
unfolding read_file find_file add_file strcmp
read_back = refl

not_there : read_file with_hi yo ≡ none
unfolding read_file find_file add_file strcmp
not_there = refl

deleted : read_file (delete_file with_hi hi).1 hi ≡ none
unfolding read_file find_file add_file strcmp delete_file remove_file clear_blocks
deleted = refl

-- The 2 bytes are still counted.
size_kept : (delete_file with_hi hi).1.total_size ≡ 2
unfolding read_file find_file add_file strcmp delete_file remove_file clear_blocks strlen
size_kept = refl

memmove-moved_example : memmove yo 1 0 2 1 ≡ moved yo 1 0 2 1
memmove-moved_example = memmove-moved yo 1 0 2 1

strcmp_iff_same_example : (same_name 10 yo hi ≡ true) ↔ ((j : ℕ) → j ≤ 2 → yo j ≡ hi j)
strcmp_iff_same_example = strcmp_iff_same 10 yo hi 2 hi-Ends (omega arith)

read_file-create_file_example :
    (b : ℕ) × (b < max_datablocks)
    × (read_file with_hi hi ≡ some b)
    × ((x : ℕ) → x < block_size → with_hi.data_blocks b x ≡ yo x)
unfolding find_file
read_file-create_file_example =
    read_file-create_file initial with_hi hi yo 10 2 true hi-Ends (omega arith) refl created

with_hi-AtMostOne : AtMostOne with_hi hi
unfolding add_file
with_hi-AtMostOne i j lt lt' same same' = omega arith

delete_file-Deleted_example : Deleted with_hi hi (delete_file with_hi hi)
delete_file-Deleted_example = delete_file-Deleted with_hi hi with_hi-AtMostOne

abbrev heap : Kmem
heap = record {
  brk = 0x1000;
  endp = 0x1000 + heap_size;
  base = 0;
  block = λ a. record { free = false; size = 0; next = 0; prev = 0; ptr = 0 };
  byte = λ a. 0;
}
