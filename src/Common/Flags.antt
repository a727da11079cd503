-- ===== src/Common/Flags.antt =====
-- Words of flags: stgcommon/sysflag/message_sys_flag.go, pull_sys_flag.go and topic_sys_flag.go,
-- stgcommon/constant/perm_name.go and RunningFlags (stgstorelog/running_flags.go).
-- A word is a number that is not negative; `0xFFFFFFFF ^ flag` is computed as it is written.
pub mod Laws
use Prim.Native.Nat.{bit_and, bit_or, bit_xor}
use ttstringgolangiot.Base.{ℕ, Bool, true, false, not, String, ◌==◌, if◌then◌else◌}

abbrev pub has_flag : ℕ → ℕ → Bool
has_flag word flag = bit_and word flag == flag

abbrev pub clear_flag : ℕ → ℕ → ℕ
clear_flag word flag = bit_and word (bit_xor 4294967295 flag)

abbrev pub add_if : Bool → ℕ → ℕ → ℕ
add_if true flag word = bit_or word flag
add_if false flag word = word

-- message_sys_flag.go
abbrev pub compressed_flag : ℕ
compressed_flag = 1

abbrev pub transaction_rollback_type : ℕ
transaction_rollback_type = 12

unfoldable pub get_transaction_value : ℕ → ℕ
get_transaction_value flag = bit_and flag transaction_rollback_type

unfoldable pub reset_transaction_value : ℕ → ℕ → ℕ
reset_transaction_value flag type = bit_or (clear_flag flag transaction_rollback_type) type

unfoldable pub clear_compressed_flag : ℕ → ℕ
clear_compressed_flag flag = clear_flag flag compressed_flag

-- pull_sys_flag.go
abbrev pub flag_commit_offset : ℕ
flag_commit_offset = 1

abbrev pub flag_suspend : ℕ
flag_suspend = 2

abbrev pub flag_subscription : ℕ
flag_subscription = 4

abbrev pub flag_class_filter : ℕ
flag_class_filter = 8

unfoldable pub build_sys_flag : Bool → Bool → Bool → Bool → ℕ
build_sys_flag commit_offset suspend subscription class_filter =
    add_if class_filter flag_class_filter (
      add_if subscription flag_subscription
        (add_if suspend flag_suspend (add_if commit_offset flag_commit_offset 0)))

unfoldable pub clear_commit_offset_flag : ℕ → ℕ
clear_commit_offset_flag word = clear_flag word flag_commit_offset

unfoldable pub has_commit_offset_flag : ℕ → Bool
has_commit_offset_flag word = has_flag word flag_commit_offset

unfoldable pub has_suspend_flag : ℕ → Bool
has_suspend_flag word = has_flag word flag_suspend

unfoldable pub has_subscription_flag : ℕ → Bool
has_subscription_flag word = has_flag word flag_subscription

unfoldable pub has_class_filter_flag : ℕ → Bool
has_class_filter_flag word = has_flag word flag_class_filter

-- topic_sys_flag.go
abbrev pub flag_unit : ℕ
flag_unit = 1

abbrev pub flag_unit_sub : ℕ
flag_unit_sub = 2

unfoldable pub topic_build_sys_flag : Bool → Bool → ℕ
topic_build_sys_flag unit has_unit_sub = add_if has_unit_sub flag_unit_sub (add_if unit flag_unit 0)

unfoldable pub set_unit_flag : ℕ → ℕ
set_unit_flag word = bit_or word flag_unit

unfoldable pub clear_unit_flag : ℕ → ℕ
clear_unit_flag word = clear_flag word flag_unit

unfoldable pub has_unit_flag : ℕ → Bool
has_unit_flag word = has_flag word flag_unit

unfoldable pub set_unit_sub_flag : ℕ → ℕ
set_unit_sub_flag word = bit_or word flag_unit_sub

unfoldable pub clear_unit_sub_flag : ℕ → ℕ
clear_unit_sub_flag word = clear_flag word flag_unit_sub

unfoldable pub has_unit_sub_flag : ℕ → Bool
has_unit_sub_flag word = has_flag word flag_unit_sub

-- perm_name.go
unfoldable pub is_readable_perm : ℕ → Bool
is_readable_perm perm = has_flag perm 4

unfoldable pub is_writeable_perm : ℕ → Bool
is_writeable_perm perm = has_flag perm 2

unfoldable pub is_inherited_perm : ℕ → Bool
is_inherited_perm perm = has_flag perm 1

-- running_flags.go: the word is the state.
abbrev pub not_readable_bit : ℕ
not_readable_bit = 1

-- NotWriteableBit, WriteLogicsQueueErrorBit, DiskFullBit and WriteIndexFileErrorBit.
abbrev pub not_writeable_bits : ℕ
not_writeable_bits = bit_or (bit_or (bit_or 2 4) 16) 8

abbrev pub disk_full_bit : ℕ
disk_full_bit = 16

unfoldable pub is_readable : ℕ → Bool
is_readable bits = bit_and bits not_readable_bit == 0

unfoldable pub is_writeable : ℕ → Bool
is_writeable bits = bit_and bits not_writeable_bits == 0

unfoldable pub make_logics_queue_error : ℕ → ℕ
make_logics_queue_error bits = bit_or bits 4

unfoldable pub make_index_file_error : ℕ → ℕ
make_index_file_error bits = bit_or bits 8

unfoldable pub get_and_make_disk_full : ℕ → Bool × ℕ
get_and_make_disk_full bits = (not (has_flag bits disk_full_bit), bit_or bits disk_full_bit)

unfoldable pub get_and_make_disk_ok : ℕ → Bool × ℕ
get_and_make_disk_ok bits = (not (has_flag bits disk_full_bit), clear_flag bits disk_full_bit)
