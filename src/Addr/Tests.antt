-- ===== src/Addr/Tests.antt =====
-- Addresses of the RISC-V target: pages of 4 KiB, canonical addresses, and fields.
use rv.Base.{◌+◌, ◌*◌, ◌^◌, ◌≡◌, arith, true}
use rv.Base.Word.{is_power_of_two, is_power_of_two-pow}
use rv.Addr.Phys
use rv.Addr.Phys.Fields.{from_ppn_wraps}

page_pow : is_power_of_two 4096 ≡ true
page_pow = is_power_of_two-pow 12 (omega arith)

from_ppn_wraps_example : Phys.from_ppn (1 * 2 ^ 52 + 0x80201) ≡ Phys.from_ppn 0x80201
from_ppn_wraps_example = from_ppn_wraps 1 0x80201
