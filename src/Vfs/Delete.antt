-- ===== src/Vfs/Delete.antt =====
-- `delete_file` of src/fs/vfs.c: the name, the other files and the total afterwards.
use tomato_os.Base.{
  ℕ, ◌+◌, ◌-◌, ◌%◌, ◌^◌, ◌≤◌, ◌<◌, ◌≡◌, refl, ap, ◌∙◌, ◌≢◌, inl, inr, Bool, true, false, ◌&&◌, none,
  some, arith, dec_lt, ltb, leb, if◌then◌else◌, ==_refl, Bool-cases, Option-cases,
}
use tomato_os.Base.Bytes.{Bytes}
use tomato_os.Base.Word.{sub64}
use tomato_os.Vfs.{Vfs, find_file, same_name, empty_inode, remove_file, delete_file}
use tomato_os.Vfs.Search.{find_file-First, First-found, First-absent}

-- No two files of the root directory answer to the name.
abbrev pub AtMostOne : Vfs → (name : Bytes) → Type 0
AtMostOne v name =
    (i j : ℕ)
    → i < j
    → j < v.file_count
    → same_name (v.files i).name name ≡ true
    → same_name (v.files j).name name ≡ true
    → ⊥

-- How a call of `delete_file` ends.
pub data Deleted (v : Vfs) (name : Bytes) : Bool × Vfs → Type 0 where
  not_found : find_file v.files name 0 v.file_count ≡ none → Deleted v name (false, v)
  removed :
      {v' : Vfs} (i : ℕ)
      → i < v.file_count
      → same_name (v.files i).name name ≡ true
      → find_file v'.files name 0 v'.file_count ≡ none
      → v'.file_count + 1 ≡ v.file_count
      → ((j : ℕ) → j < i → v'.files j ≡ v.files j)
      → ((j : ℕ) → i ≤ j → j < v'.file_count → v'.files j ≡ v.files (j + 1))
      → (v'.inode_table (v.files i).inode_number ≡ empty_inode)
      → v'.total_size ≡ v.total_size % 2 ^ 64
      → Deleted v name (true, v')

remove_file-files :
    (v : Vfs) (i j : ℕ)
    → (remove_file v i).files j
      ≡ (if leb i j && ltb j (v.file_count - 1) then v.files (j + 1) else v.files j)
unfolding remove_file
remove_file-files v i j = refl

remove_file-count : (v : Vfs) (i : ℕ) → (remove_file v i).file_count ≡ v.file_count - 1
unfolding remove_file
remove_file-count v i = refl

remove_file-inode :
    (v : Vfs) (i : ℕ) → (remove_file v i).inode_table (v.files i).inode_number ≡ empty_inode
unfolding remove_file
remove_file-inode v i = rw (==_refl (v.files i).inode_number)

remove_file-size : (v : Vfs) (i : ℕ) → (remove_file v i).total_size ≡ v.total_size % 2 ^ 64
unfolding remove_file
remove_file-size v i =
    ap (λ inode. sub64 v.total_size inode.size) (remove_file-inode v i) ∙ omega arith

module _ (v : Vfs) (name : Bytes) (one : AtMostOne v name) (i : ℕ)
    (found : find_file v.files name 0 v.file_count ≡ some i) where
  at_i : (i < v.file_count) × (same_name (v.files i).name name ≡ true)
  at_i = First-found i (find_file-First v.files name v.file_count) found

  before_i : (j : ℕ) → j < i → (remove_file v i).files j ≡ v.files j
  before_i j lt = remove_file-files v i j ∙ ground arith

  behind_i : (j : ℕ) → i ≤ j → j < v.file_count - 1 → (remove_file v i).files j ≡ v.files (j + 1)
  behind_i j le lt = remove_file-files v i j ∙ ground arith

  others : (j : ℕ) → j < v.file_count → j ≢ i → same_name (v.files j).name name ≡ false
  others j lt ne = elim (Bool-cases (same_name (v.files j).name name)) [
    | inr other ↦ other
    | inl yes' ↦ elim (dec_lt i j) [
      | yes after ↦ absurd (one i j after lt at_i.1 yes')
      | no not_after ↦ absurd (one j i (omega arith) at_i.0 yes' at_i.1)
    ]
  ]

  gone : (j : ℕ) → j < v.file_count - 1 → same_name ((remove_file v i).files j).name name ≡ false
  gone j lt = elim (dec_lt j i) [
    | yes before ↦
        ap (λ f. same_name f.name name) (before_i j before) ∙ others j (omega arith) (omega arith)
    | no behind ↦
        ap (λ f. same_name f.name name) (behind_i j (omega arith) lt)
        ∙ others (j + 1) (omega arith) (omega arith)
  ]

  removed_at : Deleted v name (true, remove_file v i)
  removed_at =
      let count = remove_file-count v i in
      let smaller = at_i.0 in
      removed i smaller at_i.1
        (First-absent (find_file-First (remove_file v i).files name (remove_file v i).file_count)
          (λ j le lt. gone j (omega (arith, count))))
        (omega (arith, count)) before_i (λ j le lt. behind_i j le (omega (arith, count)))
        (remove_file-inode v i) (remove_file-size v i)

-- Where no two files have the name, `delete_file` either finds none and changes nothing, or takes
-- the file of that name out of the directory: no file answers to the name any more, the files
-- behind it move up by one, those before it stay, and its inode is free; `total_size` stays as it
-- was, since the size that is subtracted has been cleared before.
pub delete_file-Deleted :
    (v : Vfs) (name : Bytes) → AtMostOne v name → Deleted v name (delete_file v name)
unfolding delete_file
delete_file-Deleted v name one = elim (Option-cases (find_file v.files name 0 v.file_count)) [
  | inl none_found ↦ rw (delete_file, none_found) (not_found none_found)
  | inr (i, found) ↦ rw (delete_file, found) (removed_at v name one i found)
]
