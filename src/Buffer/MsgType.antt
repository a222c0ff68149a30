-- ===== src/Buffer/MsgType.antt =====
-- enum CBCC_MSG_TYPE of cbcc-util/cbcc_buffer.h. A type that arrives is any `int`, so these are
-- numbers and no data type.
use chroot_cbccd.Base.{ℕ}

abbrev pub single : ℕ
single = 0x0000

abbrev pub start : ℕ
start = 0x0001

abbrev pub continue : ℕ
continue = 0x0002

abbrev pub end : ℕ
end = 0x0003
