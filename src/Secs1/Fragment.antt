-- ===== src/Secs1/Fragment.antt =====
-- `fragment_message` of src/secs1/block.cpp: a message cut into block frames. The loop runs on
-- fuel: every pass takes at least one byte, so the length of the payload is enough.
use secs_lib.Common.{
  ℕ, zero, suc, ◌+◌, ◌-◌, ◌/◌, ◌%◌, ◌^◌, min, Bool, true, List, [], ◌∷◌, ltb, ◌==◌, ◌&&◌,
  if◌then◌else◌, length, take, drop,
}
use secs_lib.Common.Outcome.{Result, ok, err}
use secs_lib.Core.Error
use secs_lib.Secs1.Block.{Header, encode_block, max_block_data_size}

-- The base header with the two fields that a block has of its own.
unfoldable pub block_header : Header → ℕ → Bool → Header
block_header h number last = record {
  reverse_bit = h.reverse_bit;
  device_id = h.device_id;
  wait_bit = h.wait_bit;
  stream = h.stream;
  function = h.function;
  end_bit = last;
  block_number = number;
  system_bytes = h.system_bytes;
}

-- What the call leaves in `out.back()`, which was empty; the error code is dropped.
unfoldable pub frame_of : Result Error.Errc (List ℕ) → List ℕ
frame_of (ok frame) = frame
frame_of (err e) = []

unfoldable pub fragments : ℕ → Header → List ℕ → ℕ → ℕ → List (List ℕ)
fragments zero h payload offset block_number = []
fragments (suc fuel) h payload offset block_number =
    let chunk = min (length payload - offset) max_block_data_size in
    let hdr = block_header h block_number (offset + chunk == length payload) in
    let rest = fragments fuel h payload (offset + chunk) ((block_number + 1) % 2 ^ 16) in
    if ltb offset (length payload)
    then frame_of (encode_block hdr (take chunk (drop offset payload))) ∷ rest
    else []

unfoldable pub fragment_message : Header → List ℕ → List (List ℕ)
fragment_message h payload =
    if ltb 0 (length payload)
      && ltb 0x7fff ((length payload + max_block_data_size - 1) / max_block_data_size)
    then []
    else (if length payload == 0
        then frame_of (encode_block (block_header h 1 true) []) ∷ []
        else fragments (length payload) h payload 0 1)
