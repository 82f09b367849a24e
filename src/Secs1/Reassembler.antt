-- ===== src/Secs1/Reassembler.antt =====
-- The class `Reassembler` of src/secs1/block.cpp: blocks put together to a message.
use secs_lib.Common.{
  ℕ, ◌+◌, ◌%◌, ◌^◌, Bool, true, false, ◌||◌, ◌&&◌, not, List, [], ◌++◌, ◌==◌, if◌then◌else◌, Option,
  none, some,
}
use secs_lib.Common.Outcome.{Result, ok, err}
use secs_lib.Secs1.Block.{
  Header, DecodedBlock, Errc, device_id_mismatch, block_sequence_error, protocol_error,
}
use secs_lib.Secs1.Fragment.{block_header}

pub record Reassembler : Type 0 where
  pub expected_device_id : Option ℕ
  pub has_header : Bool
  pub header : Header
  pub next_block : ℕ
  pub body : List ℕ

-- The fields' default values.
abbrev pub empty_header : Header
empty_header = record {
  reverse_bit = false;
  device_id = 0;
  wait_bit = false;
  stream = 0;
  function = 0;
  end_bit = false;
  block_number = 1;
  system_bytes = 0;
}

unfoldable pub reassembler : Option ℕ → Reassembler
reassembler expected = record {
  expected_device_id = expected;
  has_header = false;
  header = empty_header;
  next_block = 1;
  body = [];
}

unfoldable pub reset : Reassembler → Reassembler
unfolding reassembler
reset r = reassembler r.expected_device_id

unfoldable pub has_message : Reassembler → Bool
has_message r = r.has_header && r.header.end_bit

-- Both Boolean fields equal, as the source compares them with `!=`.
unfoldable pub same : Bool → Bool → Bool
same true b = b
same false b = not b

-- `expected_device_id_.has_value() && id != *expected_device_id_`.
unfoldable pub is_unexpected : Option ℕ → ℕ → Bool
is_unexpected none id = false
is_unexpected (some expected) id = not (id == expected)

unfoldable pub accept_first : Reassembler → DecodedBlock → Result Errc Reassembler
accept_first r block =
    if is_unexpected r.expected_device_id block.header.device_id
    then err device_id_mismatch
    else (if not (block.header.block_number == 1)
        then err block_sequence_error
        else ok (record {
          expected_device_id = r.expected_device_id;
          has_header = true;
          header = block.header;
          next_block = (block.header.block_number + 1) % 2 ^ 16;
          body = block.payload;
        }))

unfoldable pub accept_next : Reassembler → DecodedBlock → Result Errc Reassembler
accept_next r block =
    if is_unexpected r.expected_device_id block.header.device_id
    then err device_id_mismatch
    else (if not (block.header.device_id == r.header.device_id)
        then err device_id_mismatch
        else (if not (block.header.system_bytes == r.header.system_bytes)
            then err protocol_error
            else (if not (block.header.stream == r.header.stream)
                  || not (block.header.function == r.header.function)
                then err protocol_error
                else (if not (same block.header.reverse_bit r.header.reverse_bit)
                      || not (same block.header.wait_bit r.header.wait_bit)
                    then err protocol_error
                    else (if not (block.header.block_number == r.next_block)
                        then err block_sequence_error
                        else ok (record {
                          expected_device_id = r.expected_device_id;
                          has_header = true;
                          header = block_header r.header r.header.block_number block.header.end_bit;
                          next_block = (r.next_block + 1) % 2 ^ 16;
                          body = r.body ++ block.payload;
                        }))))))

-- An error leaves the object as it was.
unfoldable pub accept : Reassembler → DecodedBlock → Result Errc Reassembler
unfolding accept_first accept_next
accept r block = if r.has_header then accept_next r block else accept_first r block
