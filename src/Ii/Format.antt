-- ===== src/Ii/Format.antt =====
-- include/secs/ii/types.hpp and the error codes of include/secs/ii/codec.hpp.
use secs_lib.Common.{ℕ, ◌-◌, ◌*◌, ◌^◌, ◌%◌, ◌≡◌, refl, Option, none, some, ◌==◌, if◌then◌else◌, leb}
use Prim.Native.Nat.{bit_or}

pub data Errc : Type 0 where
  truncated invalid_header invalid_format length_overflow length_mismatch buffer_overflow : Errc
  list_too_large payload_too_large total_budget_exceeded out_of_memory : Errc

pub data FormatCode : Type 0 where
  list binary boolean ascii i8 i1 i2 i4 f8 f4 u8 u1 u2 u4 : FormatCode

-- The enumerators' values.
unfoldable pub code_bits : FormatCode → ℕ
code_bits FormatCode.list = 0x00
code_bits FormatCode.binary = 0x08
code_bits FormatCode.boolean = 0x09
code_bits FormatCode.ascii = 0x10
code_bits FormatCode.i8 = 0x18
code_bits FormatCode.i1 = 0x19
code_bits FormatCode.i2 = 0x1a
code_bits FormatCode.i4 = 0x1c
code_bits FormatCode.f8 = 0x20
code_bits FormatCode.f4 = 0x24
code_bits FormatCode.u8 = 0x28
code_bits FormatCode.u1 = 0x29
code_bits FormatCode.u2 = 0x2a
code_bits FormatCode.u4 = 0x2c

unfoldable pub format_code_from_bits : ℕ → Option FormatCode
format_code_from_bits b =
    if b == 0x00
    then some list
    else (if b == 0x08
        then some binary
        else (if b == 0x09
            then some boolean
            else (if b == 0x10
                then some ascii
                else (if b == 0x19
                    then some i1
                    else (if b == 0x1a
                        then some i2
                        else (if b == 0x1c
                            then some i4
                            else (if b == 0x18
                                then some i8
                                else (if b == 0x29
                                    then some u1
                                    else (if b == 0x2a
                                        then some u2
                                        else (if b == 0x2c
                                            then some u4
                                            else (if b == 0x28
                                                then some u8
                                                else (if b == 0x24
                                                    then some f4
                                                    else (if b == 0x20
                                                        then some f8
                                                        else none)))))))))))))

-- The largest value of a length field of three bytes.
abbrev pub max_length : ℕ
max_length = 0x00ff_ffff

abbrev pub size_max : ℕ
size_max = 2 ^ 64 - 1

unfoldable pub length_bytes_for : ℕ → ℕ
length_bytes_for n = if leb n 0xff then 1 else (if leb n 0xffff then 2 else 3)

-- High six bits: the code; low two bits: how many bytes the length field has.
unfoldable pub make_format_byte : FormatCode → ℕ → ℕ
make_format_byte c n = bit_or (code_bits c * 4 % 256) n % 256

pub code_of_bits : (c : FormatCode) → format_code_from_bits (code_bits c) ≡ some c
unfolding format_code_from_bits code_bits
code_of_bits list = refl
code_of_bits _ = refl
