-- ===== src/Stack.antt =====
-- A data item through the codec and a transport of the stack, as the peer receives it.
mod Tests
use secs_lib.Common.{
  ℕ, ◌+◌, ◌≤◌, ◌<◌, ◌^◌, ◌*◌, ◌≡◌, refl, sym, ap, subst, ◌∙◌, if◌then◌else◌, Bool, false, none,
  some, Option, List, [], ◌∷◌, ◌++◌, append-nil, arith, length,
}
use secs_lib.Common.Bytes.{IsByte}
use secs_lib.Common.Outcome
use secs_lib.Common.Run
use secs_lib.Core.Error as Core
use secs_lib.Ii.Format as Ii
use secs_lib.Ii.Item.{Item}
use secs_lib.Ii.Encode.{encode}
use secs_lib.Ii.Measure.{HasValues}
use secs_lib.Ii.Decode.{DecodeLimits, decode_one}
use secs_lib.Ii.Decode.Budget.{HasSizes, Fits}
use secs_lib.Ii.RoundTrip.{decode_one-encode}
use secs_lib.Hsms.Message.{Message, make_data_message, encode_frame_or_empty, decode_frame}
use secs_lib.Hsms.Builders.{decode_frame-make_data_message}
use secs_lib.Secs1.Block.{Header, Errc}
use secs_lib.Secs1.Fragment.{fragment_message, block_header}
use secs_lib.Secs1.Reassembler.{Reassembler, reassembler, has_message, is_unexpected}
use secs_lib.Secs1.Transfer.{IsBase, deliver, deliver-fragment_message}

unfoldable pub found : Run.Run Ii.Errc (Item × ℕ) → Option Item
found (Run.ok (x, n)) = some x
found (Run.err e) = none
found Run.stuck = none

unfoldable pub in_message : DecodeLimits → Outcome.Result Core.Errc (Message × ℕ) → Option Item
unfolding found
in_message l (Outcome.ok (m, n)) = found (decode_one m.body l)
in_message l (Outcome.err e) = none

-- The body of a message that is complete.
unfoldable pub in_blocks : DecodeLimits → Outcome.Result Errc Reassembler → Option Item
unfolding found
in_blocks l (Outcome.ok r) = if has_message r then found (decode_one r.body l) else none
in_blocks l (Outcome.err e) = none

-- The item in the body of the message that a frame carries.
unfoldable pub from_frame : DecodeLimits → List ℕ → Option Item
from_frame l frame = in_message l (decode_frame frame)

-- The item in the body of the message that a run of blocks carries.
unfoldable pub from_blocks : DecodeLimits → Option ℕ → List (List ℕ) → Option Item
from_blocks l expected frames = in_blocks l (deliver (reassembler expected) frames)

module _ (x : Item) (bytes : List ℕ) (l : DecodeLimits) (e : encode x [] ≡ (none, bytes))
    (vals : HasValues x) (sizes : HasSizes l)
    (fits : Fits l 0 (record { total_items = 0; total_bytes = 0 }) x) where
  found-bytes : found (decode_one bytes l) ≡ some x
  unfolding found
  found-bytes =
      ap (λ b. found (decode_one b l)) (sym (append-nil bytes))
      ∙ ap found (decode_one-encode x bytes [] l e vals sizes fits)

  -- An item that was encoded and sent in an HSMS data message within the size limit, with a
  -- session id, a stream, a function and system bytes in range, is the item that the peer finds
  -- in the frame, whatever follows it, if the values of the item are in range and the limits of
  -- the peer are values of `size_t` and admit the item.
  pub from_frame-make_data_message :
      (session_id str fn : ℕ) (w : Bool) (system_bytes : ℕ) (more : List ℕ)
      → session_id < 2 ^ 16
      → str < 128
      → IsByte fn
      → system_bytes < 2 ^ 32
      → length bytes ≤ 0xff_fff6
      → from_frame l
          (encode_frame_or_empty (make_data_message session_id str fn w system_bytes bytes) ++ more)
        ≡ some x
  unfolding from_frame in_message make_data_message
  from_frame-make_data_message session_id str fn w system_bytes more hs hstr hf hsys n =
      ap (in_message l)
        (decode_frame-make_data_message session_id str fn w system_bytes bytes more hs hstr hf hsys
          n).0
      ∙ found-bytes

  -- An item whose encoding takes at most 0x7fff blocks, and that was encoded and sent in such a
  -- run of SECS-I blocks with a base header in range, is the item that the peer finds in the
  -- reassembled message, if the values of the item are in range, the limits of the peer are
  -- values of `size_t` and admit the item, and the peer expects the device of the header or any.
  pub from_blocks-fragment_message :
      (expected : Option ℕ) (h : Header)
      → IsBase h
      → is_unexpected expected h.device_id ≡ false
      → length bytes ≤ 244 * 0x7fff
      → from_blocks l expected (fragment_message h bytes) ≡ some x
  unfolding from_blocks in_blocks has_message block_header
  from_blocks-fragment_message expected h v d n =
      ap (in_blocks l) (deliver-fragment_message expected h bytes v d n) ∙ found-bytes
