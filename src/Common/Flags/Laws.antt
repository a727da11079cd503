-- ===== src/Common/Flags/Laws.antt =====
-- What the words of flags say of the flags that they were built of.
use Prim.Native.Nat.{bit_and}
use ttstringgolangiot.Base.{ℕ, zero, suc, ◌<◌, ◌≡◌, refl, Bool, true, false, not, ◌&&◌, ◌==◌, arith}
use ttstringgolangiot.Common.Flags.{
  build_sys_flag, has_commit_offset_flag, has_suspend_flag, has_subscription_flag,
  has_class_filter_flag, clear_commit_offset_flag, topic_build_sys_flag, has_unit_flag,
  has_unit_sub_flag, set_unit_flag, clear_unit_flag, set_unit_sub_flag, clear_unit_sub_flag,
  is_writeable, is_readable, get_and_make_disk_full, get_and_make_disk_ok,
}

-- A pull request's word has each flag exactly when it was built with it, and clearing the commit
-- flag clears that one only.
pub build_sys_flag_lem :
    (c s b f : Bool)
    → (has_commit_offset_flag (build_sys_flag c s b f) ≡ c)
      × (has_suspend_flag (build_sys_flag c s b f) ≡ s)
      × (has_subscription_flag (build_sys_flag c s b f) ≡ b)
      × (has_class_filter_flag (build_sys_flag c s b f) ≡ f)
      × (clear_commit_offset_flag (build_sys_flag c s b f) ≡ build_sys_flag false s b f)
unfolding build_sys_flag has_commit_offset_flag has_suspend_flag has_subscription_flag
    has_class_filter_flag clear_commit_offset_flag
build_sys_flag_lem true true true true = (refl, refl, refl, refl, refl)
build_sys_flag_lem true true true false = (refl, refl, refl, refl, refl)
build_sys_flag_lem true true false true = (refl, refl, refl, refl, refl)
build_sys_flag_lem true true false false = (refl, refl, refl, refl, refl)
build_sys_flag_lem true false true true = (refl, refl, refl, refl, refl)
build_sys_flag_lem true false true false = (refl, refl, refl, refl, refl)
build_sys_flag_lem true false false true = (refl, refl, refl, refl, refl)
build_sys_flag_lem true false false false = (refl, refl, refl, refl, refl)
build_sys_flag_lem false true true true = (refl, refl, refl, refl, refl)
build_sys_flag_lem false true true false = (refl, refl, refl, refl, refl)
build_sys_flag_lem false true false true = (refl, refl, refl, refl, refl)
build_sys_flag_lem false true false false = (refl, refl, refl, refl, refl)
build_sys_flag_lem false false true true = (refl, refl, refl, refl, refl)
build_sys_flag_lem false false true false = (refl, refl, refl, refl, refl)
build_sys_flag_lem false false false true = (refl, refl, refl, refl, refl)
build_sys_flag_lem false false false false = (refl, refl, refl, refl, refl)

-- A topic's word has each flag exactly when it was built with it, and setting or clearing one of
-- the flags gives the word that is built with that flag changed.
pub topic_build_sys_flag_lem :
    (u s : Bool)
    → let w : ℕ = topic_build_sys_flag u s in
      (has_unit_flag w ≡ u)
      × (has_unit_sub_flag w ≡ s)
      × (set_unit_flag w ≡ topic_build_sys_flag true s)
      × (clear_unit_flag w ≡ topic_build_sys_flag false s)
      × (set_unit_sub_flag w ≡ topic_build_sys_flag u true)
      × (clear_unit_sub_flag w ≡ topic_build_sys_flag u false)
unfolding topic_build_sys_flag has_unit_flag has_unit_sub_flag set_unit_flag clear_unit_flag
    set_unit_sub_flag clear_unit_sub_flag
topic_build_sys_flag_lem true true = (refl, refl, refl, refl, refl, refl)
topic_build_sys_flag_lem true false = (refl, refl, refl, refl, refl, refl)
topic_build_sys_flag_lem false true = (refl, refl, refl, refl, refl, refl)
topic_build_sys_flag_lem false false = (refl, refl, refl, refl, refl, refl)

-- Over the words of five flags, a test is run on every value.
abbrev every_word : (ℕ → Bool) → ℕ → Bool
every_word test zero = true
every_word test (suc bound) = every_word test bound && test bound

every_word_lem :
    (test : ℕ → Bool) (bound word : ℕ)
    → word < bound
    → every_word test bound ≡ true
    → test word ≡ true
every_word_lem test zero word inside passed = absurd (omega arith)
every_word_lem test (suc bound) word inside passed = ground (arith, every_word_lem test bound word)

same : Bool → Bool → Bool
same true b = b
same false b = not b

same_eq : (a b : Bool) → same a b ≡ true → a ≡ b
unfolding same
same_eq true true h = refl
same_eq true false h = absurd cc
same_eq false true h = absurd cc
same_eq false false h = refl

-- What the store may do, with the disk full or not: the test of both in one.
disk_test : ℕ → Bool
disk_test x =
    not (is_writeable ((get_and_make_disk_full x).1))
    && same (is_writeable ((get_and_make_disk_ok x).1)) (bit_and x 14 == 0)
    && same (is_readable ((get_and_make_disk_full x).1)) (is_readable x)
    && same (is_readable ((get_and_make_disk_ok x).1)) (is_readable x)

disk_table : every_word disk_test 32 ≡ true
unfolding disk_test same is_writeable is_readable get_and_make_disk_full get_and_make_disk_ok
disk_table = refl

-- For a word of the five running flags: a full disk forbids writing; a disk that is not full any
-- more allows it exactly when none of the three other bits that forbid it is set; reading is
-- allowed as before.
pub running_flags-disk :
    (x : ℕ)
    → x < 32
    → (is_writeable ((get_and_make_disk_full x).1) ≡ false)
      × (is_writeable ((get_and_make_disk_ok x).1) ≡ (bit_and x 14 == 0))
      × (is_readable ((get_and_make_disk_full x).1) ≡ is_readable x)
      × (is_readable ((get_and_make_disk_ok x).1) ≡ is_readable x)
unfolding disk_test
running_flags-disk x h =
    let e : disk_test x ≡ true = every_word_lem disk_test 32 x h disk_table in
    (
      ground arith,
      same_eq (is_writeable ((get_and_make_disk_ok x).1)) (bit_and x 14 == 0) (ground arith),
      same_eq (is_readable ((get_and_make_disk_full x).1)) (is_readable x) (ground arith),
      same_eq (is_readable ((get_and_make_disk_ok x).1)) (is_readable x) (ground arith),
    )
