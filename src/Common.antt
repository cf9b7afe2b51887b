-- ===== src/Common.antt =====
-- core/src/common/mod.rs: identifiers, raw bytes and constants, and the identifier allocators of
-- the engine (core/src/common/engines). A `BranchID` or `VersionID` is the big-endian form of a
-- u64; it is the number here, since the byte order on fixed-width big-endian forms is the order
-- of the numbers.
use vsdb.Prelude.{ℕ, ◌+◌, ◌-◌, ◌%◌, ◌^◌, List, [], ◌∷◌}

abbrev pub RawBytes : Type 0
RawBytes = List ℕ

abbrev pub RawKey : Type 0
RawKey = RawBytes

abbrev pub RawValue : Type 0
RawValue = RawBytes

abbrev pub BranchId : Type 0
BranchId = ℕ

abbrev pub VersionId : Type 0
VersionId = ℕ

-- `NULL`, the empty value: it means 'not exist'.
abbrev pub null_value : RawValue
null_value = []

abbrev pub reserved_id_cnt : ℕ
reserved_id_cnt = 4096_0000

abbrev pub biggest_reserved_id : ℕ
biggest_reserved_id = reserved_id_cnt - 1

abbrev pub null_id : BranchId
null_id = biggest_reserved_id

abbrev pub initial_branch_id : BranchId
initial_branch_id = 0

-- b"master"
abbrev pub initial_branch_name : RawBytes
initial_branch_name = b'm' ∷ b'a' ∷ b's' ∷ b't' ∷ b'e' ∷ b'r' ∷ []

abbrev pub reserved_version_num_default : ℕ
reserved_version_num_default = 10

-- The values of a u64, and of a usize on the 64-bit targets.
abbrev pub u64_mod : ℕ
u64_mod = 2 ^ 64

abbrev pub ver_id_max : VersionId
ver_id_max = u64_mod - 1

-- The counters that `META_KEY_BRANCH_ID` and `META_KEY_VERSION_ID` keep in the engine.
pub record Allocator : Type 0 where
  pub br_id : BranchId
  pub ver_id : VersionId

-- The counters of a new engine.
abbrev pub new_allocator : Allocator
new_allocator = record { br_id = 1 + initial_branch_id; ver_id = 0 }

unfoldable pub alloc_br_id : Allocator → BranchId × Allocator
alloc_br_id db = (db.br_id, record db { br_id = (1 + db.br_id) % u64_mod })

unfoldable pub alloc_ver_id : Allocator → VersionId × Allocator
alloc_ver_id db = (db.ver_id, record db { ver_id = (1 + db.ver_id) % u64_mod })
