-- ===== src/Types.antt =====
-- src/commonTypes.hpp: the result codes and the enumerations that every part shares.
use paffs.Prelude.{ℕ, Bool, true, false, List}

pub data Result : Type 0 where
  ok biterror_corrected biterror_not_corrected not_found exists too_big invalid_input nimpl bug
        no_parent no_space no_perm low_mem dir_not_empty bad_flash not_mounted alr_mounted
        obj_name_too_long read_only fail :
      Result

abbrev pub is_ok : Result → Bool
is_ok ok = true
is_ok _ = false

pub data AreaType : Type 0 where
  unset superblock journal index data_area garbage_buffer retired no_type : AreaType

-- The values of `enum AreaType`, by which `mActiveAreas` is indexed.
abbrev pub type_no : AreaType → ℕ
type_no unset = 0
type_no superblock = 1
type_no journal = 2
type_no index = 3
type_no data_area = 4
type_no garbage_buffer = 5
type_no retired = 6
type_no no_type = 7

pub data AreaStatus : Type 0 where
  closed active empty : AreaStatus

pub data SummaryEntry : Type 0 where
  free used dirty error : SummaryEntry

abbrev pub is_retired : AreaType → Bool
is_retired retired = true
is_retired _ = false

abbrev pub is_unset : AreaType → Bool
is_unset unset = true
is_unset _ = false

abbrev pub is_empty : AreaStatus → Bool
is_empty empty = true
is_empty _ = false

pub record Area : Type 0 where
  pub type : AreaType
  pub status : AreaStatus
  pub erasecount : ℕ  -- 17 bits
  pub position : ℕ  -- AreaPos, the physical area

-- `struct Inode`; the addresses are `direct[11]`, `indir`, `d_indir` and `t_indir`.
pub data InodeType : Type 0 where
  file dir lnk : InodeType

pub record Inode : Type 0 where
  pub no : ℕ
  pub type : InodeType
  pub perm : ℕ
  pub reserved_pages : ℕ
  pub size : ℕ
  pub crea : ℕ
  pub modified : ℕ
  pub direct : List ℕ
  pub indir : ℕ
  pub d_indir : ℕ
  pub t_indir : ℕ

-- The build's constants: config/*/paffs/config.hpp and src/config/auto.hpp.
pub record Config : Type 0 where
  pub areas_no : ℕ
  pub blocks_per_area : ℕ
  pub pages_per_block : ℕ
  pub total_pages_per_area : ℕ
  pub data_pages_per_area : ℕ
  pub mram_size : ℕ
  pub reserved_logsize : ℕ
