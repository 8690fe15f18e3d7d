-- ===== src/Adapter/Errors.antt =====
-- src/worker/bddisasm/bddisasm.c, zydis/zydis.c: the texts for the statuses of the two libraries.
use mishegos.Base.{ℕ, List, codes}

-- The statuses that `bddisasm_strerror` has a text for, and any other one.
pub data NdStatus : Type 0 where
  nd_status_buffer_too_small : NdStatus
  nd_status_invalid_encoding : NdStatus
  nd_status_instruction_too_long : NdStatus
  nd_status_invalid_prefix_sequence : NdStatus
  nd_status_invalid_register_in_instruction : NdStatus
  nd_status_xop_with_prefix : NdStatus
  nd_status_vex_with_prefix : NdStatus
  nd_status_evex_with_prefix : NdStatus
  nd_status_invalid_encoding_in_mode : NdStatus
  nd_status_bad_lock_prefix : NdStatus
  nd_status_cs_load : NdStatus
  nd_status_66_not_accepted : NdStatus
  nd_status_16_bit_addressing_not_supported : NdStatus
  nd_status_rip_rel_addressing_not_supported : NdStatus
  nd_status_vsib_without_sib : NdStatus
  nd_status_invalid_vsib_regs : NdStatus
  nd_status_vex_vvvv_must_be_zero : NdStatus
  nd_status_mask_not_supported : NdStatus
  nd_status_mask_required : NdStatus
  nd_status_er_sae_not_supported : NdStatus
  nd_status_zeroing_not_supported : NdStatus
  nd_status_zeroing_on_memory : NdStatus
  nd_status_zeroing_no_mask : NdStatus
  nd_status_broadcast_not_supported : NdStatus
  nd_status_invalid_parameter : NdStatus
  nd_status_invalid_instrux : NdStatus
  nd_status_buffer_overflow : NdStatus
  nd_status_internal_error : NdStatus
  nd_status_other : ℕ → NdStatus

unfoldable pub bddisasm_strerror : NdStatus → List ℕ
bddisasm_strerror nd_status_buffer_too_small = codes "The provided input buffer is too small."
bddisasm_strerror nd_status_invalid_encoding = codes "Invalid encoding/instruction."
bddisasm_strerror nd_status_instruction_too_long = codes "Instruction exceeds the maximum 15 bytes."
bddisasm_strerror nd_status_invalid_prefix_sequence = codes "Invalid prefix sequence is present."
bddisasm_strerror nd_status_invalid_register_in_instruction =
    codes "The instruction uses an invalid register."
bddisasm_strerror nd_status_xop_with_prefix = codes "XOP is present, but also a legacy prefix."
bddisasm_strerror nd_status_vex_with_prefix = codes "VEX is present, but also a legacy prefix."
bddisasm_strerror nd_status_evex_with_prefix = codes "EVEX is present, but also a legacy prefix."
bddisasm_strerror nd_status_invalid_encoding_in_mode = codes "Invalid encoding/instruction."
bddisasm_strerror nd_status_bad_lock_prefix = codes "Invalid usage of LOCK."
bddisasm_strerror nd_status_cs_load = codes "An attempt to load the CS register."
bddisasm_strerror nd_status_66_not_accepted = codes "0x66 prefix is not accepted."
bddisasm_strerror nd_status_16_bit_addressing_not_supported =
    codes "16 bit addressing mode not supported."
bddisasm_strerror nd_status_rip_rel_addressing_not_supported =
    codes "RIP-relative addressing not supported."
bddisasm_strerror nd_status_vsib_without_sib =
    codes "Instruction uses VSIB, but SIB is not present."
bddisasm_strerror nd_status_invalid_vsib_regs =
    codes "VSIB addressing, same vector reg used more than once."
bddisasm_strerror nd_status_vex_vvvv_must_be_zero = codes "VEX.VVVV field must be zero."
bddisasm_strerror nd_status_mask_not_supported = codes "Masking is not supported."
bddisasm_strerror nd_status_mask_required = codes "Masking is mandatory."
bddisasm_strerror nd_status_er_sae_not_supported = codes "Embedded rounding/SAE not supported."
bddisasm_strerror nd_status_zeroing_not_supported = codes "Zeroing not supported."
bddisasm_strerror nd_status_zeroing_on_memory = codes "Zeroing on memory."
bddisasm_strerror nd_status_zeroing_no_mask = codes "Zeroing without masking."
bddisasm_strerror nd_status_broadcast_not_supported = codes "Broadcast not supported."
bddisasm_strerror nd_status_invalid_parameter = codes "An invalid parameter was provided."
bddisasm_strerror nd_status_invalid_instrux = codes "The INSTRUX contains unexpected values."
bddisasm_strerror nd_status_buffer_overflow =
    codes "Not enough space is available to format textual disasm."
bddisasm_strerror nd_status_internal_error = codes "Internal error occurred."
bddisasm_strerror (nd_status_other n) = codes "unknown"

-- The statuses that `ZyanStatus_strerror` has a text for, and any other one.
pub data ZyanStatus : Type 0 where
  zydis_status_no_more_data : ZyanStatus
  zydis_status_decoding_error : ZyanStatus
  zydis_status_instruction_too_long : ZyanStatus
  zydis_status_bad_register : ZyanStatus
  zydis_status_illegal_lock : ZyanStatus
  zydis_status_illegal_legacy_pfx : ZyanStatus
  zydis_status_illegal_rex : ZyanStatus
  zydis_status_invalid_map : ZyanStatus
  zydis_status_malformed_evex : ZyanStatus
  zydis_status_malformed_mvex : ZyanStatus
  zydis_status_invalid_mask : ZyanStatus
  zydis_status_other : ℕ → ZyanStatus

unfoldable pub zyan_status_strerror : ZyanStatus → List ℕ
zyan_status_strerror zydis_status_no_more_data = codes "no more data"
zyan_status_strerror zydis_status_decoding_error = codes "general decoding error"
zyan_status_strerror zydis_status_instruction_too_long = codes "instruction too long"
zyan_status_strerror zydis_status_bad_register = codes "invalid register"
zyan_status_strerror zydis_status_illegal_lock = codes "illegal lock prefix"
zyan_status_strerror zydis_status_illegal_legacy_pfx = codes "illegal legacy prefix"
zyan_status_strerror zydis_status_illegal_rex = codes "illegal REX prefix"
zyan_status_strerror zydis_status_invalid_map = codes "illegal opcode map value"
zyan_status_strerror zydis_status_malformed_evex = codes "illegal EVEX prefix"
zyan_status_strerror zydis_status_malformed_mvex = codes "illegal MVEX prefix"
zyan_status_strerror zydis_status_invalid_mask = codes "invalid write mask"
zyan_status_strerror (zydis_status_other n) = codes "unknown"
