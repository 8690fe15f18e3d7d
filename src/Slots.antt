-- ===== src/Slots.antt =====
-- src/include/mish_common.h: the limits, the decode statuses and the two slot types that the
-- fuzzer, its workers and mish2jsonl share.
use mishegos.Base.{ℕ, ◌≤◌, ◌≡◌, List, length}

abbrev pub mishegos_insn_maxlen : ℕ
mishegos_insn_maxlen = 15

abbrev pub mishegos_dec_maxlen : ℕ
mishegos_dec_maxlen = 248

abbrev pub mishegos_max_nworkers : ℕ
mishegos_max_nworkers = 31

-- `decode_status` is stored and read back as a 32-bit number, so a status is a number here too.
abbrev pub s_none : ℕ
s_none = 0

abbrev pub s_success : ℕ
s_success = 1

abbrev pub s_failure : ℕ
s_failure = 2

abbrev pub s_crash : ℕ
s_crash = 3

abbrev pub s_partial : ℕ
s_partial = 4

abbrev pub s_unknown : ℕ
s_unknown = 5

-- `raw_insn` is an array of 15 bytes, of which the first `len` count.
pub record InputSlot : Type 0 where
  pub len : ℕ  -- uint8_t
  pub raw_insn : List ℕ

-- The array has its 15 bytes, and the length stays inside it.
pub record IsSized (slot : InputSlot) : Type 0 where
  pub size : length slot.raw_insn ≡ mishegos_insn_maxlen
  pub short : slot.len ≤ mishegos_insn_maxlen

-- `result` is an array of 248 bytes, of which the first `len` count.
pub record OutputSlot : Type 0 where
  pub status : ℕ
  pub ndecoded : ℕ  -- uint16_t
  pub len : ℕ  -- uint16_t
  pub result : List ℕ
