-- ===== src/Hsms/Connection/Incoming.antt =====
-- The reading side of src/hsms/connection.cpp. What the stream's reads will give is a list: bytes, or
-- a failure, be it the stream's or the character timeout T8. A read that asks for fewer bytes than
-- have come leaves the others for the next one; where the list ends the reader waits.
use secs_lib.Common.{ℕ, ◌-◌, not, List, [], ◌∷◌, ◌++◌, ltb, ◌==◌, if◌then◌else◌, length, take, drop}
use secs_lib.Core.Error.{Failure, core, invalid_argument, buffer_overflow}
use secs_lib.Hsms.Message.{
  Header, Message, header_size, length_field_size, max_payload_size, p_type_secs2, header_of,
  read_u32_be,
}

pub data Arrival : Type 0 where
  bytes : List ℕ → Arrival
  fails : Failure → Arrival

-- What a call of the reading side gives.
pub data Reading (A : Type 0) : Type 0 where
  done : A → Reading A
  failed_with : Failure → Reading A
  waits : Reading A

unfoldable pub in_front : List ℕ → Reading (List ℕ × List Arrival) → Reading (List ℕ × List Arrival)
in_front xs (done (ys, rest)) = done (xs ++ ys, rest)
in_front xs (failed_with e) = failed_with e
in_front xs waits = waits

-- `async_read_exactly`: as many bytes as are asked for.
unfoldable pub read_exactly : ℕ → List Arrival → Reading (List ℕ × List Arrival)
read_exactly n [] = if n == 0 then done ([], []) else waits
read_exactly n (fails e ∷ rest) = if n == 0 then done ([], fails e ∷ rest) else failed_with e
read_exactly n (bytes xs ∷ rest) =
    let more = read_exactly (n - length xs) rest in
    if n == 0
    then done ([], bytes xs ∷ rest)
    else (if length xs == 0
        then failed_with (core invalid_argument)
        else (if ltb n (length xs)
            then done (take n xs, bytes (drop n xs) ∷ rest)
            else in_front xs more))

abbrev pub then_read :
    {A B : Type 0}
    → Reading (A × List Arrival)
    → (A → List Arrival → Reading (B × List Arrival))
    → Reading (B × List Arrival)
then_read (done (a, rest)) f = f a rest
then_read (failed_with e) f = failed_with e
then_read waits f = waits

unfoldable pub read_body : Header → List ℕ → List Arrival → Reading (Message × List Arrival)
read_body h body rest = done (record { header = h; body = body }, rest)

unfoldable pub read_header : ℕ → List ℕ → List Arrival → Reading (Message × List Arrival)
read_header payload_len p rest =
    let h = header_of p in
    let body = then_read (read_exactly (payload_len - header_size) rest) (read_body h) in
    if not (h.p_type == p_type_secs2) then failed_with (core invalid_argument) else body

-- `payload_len` is the number that the length field holds.
unfoldable pub read_payload : List ℕ → List Arrival → Reading (Message × List Arrival)
read_payload len_buf rest =
    let n = read_u32_be len_buf 0 in
    let header = then_read (read_exactly header_size rest) (read_header n) in
    if ltb n header_size
    then failed_with (core invalid_argument)
    else (if ltb max_payload_size n then failed_with (core buffer_overflow) else header)

-- `async_read_message`. The body's allocation is taken to succeed.
unfoldable pub async_read_message : List Arrival → Reading (Message × List Arrival)
async_read_message arrivals = then_read (read_exactly length_field_size arrivals) read_payload
