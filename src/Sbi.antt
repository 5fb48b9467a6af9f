-- ===== src/Sbi.antt =====
-- sbi.rs, the calls of the firmware. The firmware is not part of the kernel, so it is a function from
-- the extension, the function and the two arguments to what comes back; an error code is the word that
-- the signed number is in two's complement.
use osmium.Prelude.{ℕ, ◌/◌, ◌^◌, Bool, not, ◌&&◌, ◌==◌, bit_and}

pub record SbiRet : Type 0 where
  pub error : ℕ
  pub value : ℕ

abbrev pub Firmware : Type 0
Firmware = (eid fid arg0 arg1 : ℕ) → SbiRet

pub is_ok : SbiRet → Bool
is_ok ret = ret.error == 0

abbrev pub eid_base : ℕ
eid_base = 0x10

-- "TIME" and "SRST"
abbrev pub eid_time : ℕ
eid_time = 0x5449_4D45

abbrev pub eid_srst : ℕ
eid_srst = 0x5352_5354

-- The major and the minor number.
pub spec_version : Firmware → ℕ × ℕ
spec_version call =
    let ret = call eid_base 0 0 0 in
    (bit_and (ret.value / 2 ^ 24) 0x7f, bit_and ret.value 0xff_ffff)

pub impl_id : Firmware → ℕ
impl_id call = (call eid_base 1 0 0).value

pub impl_version : Firmware → ℕ
impl_version call = (call eid_base 2 0 0).value

pub probe_extension : Firmware → (eid : ℕ) → Bool
probe_extension call eid = let ret = call eid_base 3 eid 0 in is_ok ret && not (ret.value == 0)

pub probe_time : Firmware → Bool
probe_time call = probe_extension call eid_time

pub probe_srst : Firmware → Bool
probe_srst call = probe_extension call eid_srst

abbrev pub reset_type_shutdown : ℕ
reset_type_shutdown = 0

abbrev pub reset_type_cold_reboot : ℕ
reset_type_cold_reboot = 1

abbrev pub reset_reason_none : ℕ
reset_reason_none = 0

pub system_reset : Firmware → (reset_type reason : ℕ) → SbiRet
system_reset call reset_type reason = call eid_srst 0 reset_type reason
