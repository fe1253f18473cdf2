-- ===== src/Seal/Access.antt =====
-- The access rights of Landlock that rules.go names, and the sets that it builds of them.
use podlock.Prelude.{Bool, ◌||◌, ◌==◌, Eq}

-- The constants `ll.AccessFS…` of go-landlock that are used.
pub data AccessRight : Type 0 where
  execute write_file read_file read_dir remove_dir remove_file : AccessRight
  make_char make_dir make_reg make_sock make_fifo make_block make_sym refer truncate : AccessRight

right_dec : Discrete AccessRight
right_dec = hlevel

instance unfoldable pub right_eq : Eq AccessRight
unfolding right_dec
right_eq = record { dec = right_dec }

-- landlock.AccessFSSet, a set of flags
abbrev pub AccessFsSet : Type 0
AccessFsSet = AccessRight → Bool

abbrev pub flag : AccessRight → AccessFsSet
flag a r = r == a

infixr 30 ◌∪◌
abbrev pub ◌∪◌ : AccessFsSet → AccessFsSet → AccessFsSet
◌∪◌ s t r = s r || t r

unfoldable pub access_file_r : AccessFsSet
access_file_r = flag read_file

unfoldable pub access_file_rx : AccessFsSet
access_file_rx = flag execute ∪ flag read_file

unfoldable pub access_file_rw : AccessFsSet
unfolding access_file_r
access_file_rw = access_file_r ∪ flag write_file ∪ flag truncate

unfoldable pub access_file_rwx : AccessFsSet
unfolding access_file_rx access_file_rw
access_file_rwx = access_file_rx ∪ access_file_rw

unfoldable pub access_dir_r : AccessFsSet
unfolding access_file_r
access_dir_r = flag read_dir ∪ access_file_r

unfoldable pub access_dir_rx : AccessFsSet
unfolding access_file_rx access_dir_r
access_dir_rx = access_file_rx ∪ access_dir_r

unfoldable pub access_dir_rw : AccessFsSet
unfolding access_dir_r access_file_rw
access_dir_rw =
    access_dir_r
    ∪ access_file_rw
    ∪ flag remove_dir
    ∪ flag remove_file
    ∪ flag make_char
    ∪ flag make_dir
    ∪ flag make_reg
    ∪ flag make_sock
    ∪ flag make_fifo
    ∪ flag make_block
    ∪ flag make_sym
    ∪ flag refer

unfoldable pub access_dir_rwx : AccessFsSet
unfolding access_dir_rx access_dir_rw
access_dir_rwx = access_dir_rx ∪ access_dir_rw
