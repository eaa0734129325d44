-- ===== src/Storage/Disk.antt =====
-- The directory of a topic and the calls of `os` that the storage engine makes. A name leads to an
-- inode; an open file keeps its inode when the name is removed.
use yuclase.Base.{ℕ, ◌+◌, Bool, Option, none, some, List, [], ◌++◌, ◌==◌, if◌then◌else◌}
use yuclase.Base.Int64.{ℤ}
use yuclase.Base.Exec.{
  Syscall, open_call, write_call, read_dir_call, remove_call, not_exist, os_error, Result, ok, err,
  Exec,
}
use yuclase.Base.Assoc.{lookup, remove, insert_sorted}
use yuclase.Storage.Document.{Document}

pub data Node : Type 0 where
  sub_directory : Node
  file : ℕ → Node

-- `entries` is what `os.ReadDir` lists, less the index and the catalog, which have fixed names.
-- `failing` says which calls the system refuses, and `now` is its clock in nanoseconds.
pub record Disk : Type 0 where
  pub entries : List (List ℕ × Node)
  pub content : ℕ → List ℕ
  pub modified : ℕ → ℤ
  pub next_inode : ℕ
  pub index_file : Option (List ℕ)
  pub catalog_file : Option Document
  pub catalog_temp : Option Document
  pub now : ℤ
  pub failing : Syscall → Bool

-- A method of a component works on the component and on the disk.
pub record On (C : Type 0) : Type 0 where
  pub self : C
  pub disk : Disk

abbrev pub update {ℓ} : {A : Type ℓ} → (ℕ → A) → ℕ → A → ℕ → A
update f i v = λ j. if j == i then v else f j

module _ {C : Type 0} where
  abbrev pub on_disk : {A : Type 0} → (Disk → Result A × Disk) → Exec (On C) A
  on_disk m s = let (r, d) = m s.disk in (r, record { self = s.self; disk = d })

abbrev pub system_call : {A : Type 0} → Syscall → (Disk → Result A × Disk) → Disk → Result A × Disk
system_call c m d = if d.failing c then (err (os_error c), d) else m d

-- `os.OpenFile(name, O_CREATE|O_WRONLY|O_APPEND)`
open_append_node : List ℕ → Option Node → Disk → Result ℕ × Disk
open_append_node name (some (file i)) d = (ok i, d)
open_append_node name (some sub_directory) d = (err (os_error open_call), d)
open_append_node name none d =
    let i = d.next_inode in
    (
      ok i,
      record d {
        entries = insert_sorted name (file i) d.entries;
        content = update d.content i [];
        modified = update d.modified i d.now;
        next_inode = i + 1;
      },
    )

unfoldable pub open_append : List ℕ → Disk → Result ℕ × Disk
unfolding open_append_node
open_append name = system_call open_call (λ d. open_append_node name (lookup name d.entries) d)

-- `os.Open(name)`
open_read_node : Option Node → Result ℕ
open_read_node (some (file i)) = ok i
open_read_node (some sub_directory) = err (os_error open_call)
open_read_node none = err not_exist

unfoldable pub open_read : List ℕ → Disk → Result ℕ × Disk
unfolding open_read_node
open_read name = system_call open_call (λ d. (open_read_node (lookup name d.entries), d))

-- A write to a file that was opened with O_APPEND.
unfoldable pub append_to : ℕ → List ℕ → Disk → Result (Unit {0}) × Disk
append_to i bytes = system_call write_call λ d. (
  ok tt,
  record d {
    content = update d.content i (d.content i ++ bytes);
    modified = update d.modified i d.now;
  },
)

-- `os.ReadDir`
unfoldable pub read_dir : Disk → Result (List (List ℕ × Node)) × Disk
read_dir = system_call read_dir_call (λ d. (ok d.entries, d))

-- `os.Remove(name)`
remove_node : List ℕ → Option Node → Disk → Result (Unit {0}) × Disk
remove_node name (some n) d = (ok tt, record d { entries = remove name d.entries })
remove_node name none d = (err not_exist, d)

unfoldable pub remove_file : List ℕ → Disk → Result (Unit {0}) × Disk
unfolding remove_node
remove_file name = system_call remove_call (λ d. remove_node name (lookup name d.entries) d)
