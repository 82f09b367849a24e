-- ===== src/Hsms/SType.antt =====
-- `secs::hsms::SType` of include/secs/hsms/message.hpp: an enumeration over a byte, of which any
-- byte is a value. These are the named ones.
use secs_lib.Common.{ℕ}

abbrev pub data_message : ℕ
data_message = 0x00

abbrev pub select_req : ℕ
select_req = 0x01

abbrev pub select_rsp : ℕ
select_rsp = 0x02

abbrev pub deselect_req : ℕ
deselect_req = 0x03

abbrev pub deselect_rsp : ℕ
deselect_rsp = 0x04

abbrev pub linktest_req : ℕ
linktest_req = 0x05

abbrev pub linktest_rsp : ℕ
linktest_rsp = 0x06

abbrev pub reject_req : ℕ
reject_req = 0x07

abbrev pub separate_req : ℕ
separate_req = 0x09
