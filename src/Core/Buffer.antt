-- ===== src/Core/Buffer.antt =====
-- The class `FixedBuffer` of include/secs/core/buffer.hpp and src/core/buffer.cpp. A call that
-- returns an error code gives the code, `none` for success, and the object after it. The heap's
-- `new (std::nothrow)` is the parameter `allocate`: an array of the size asked for, or nothing.
pub mod Shape
pub mod Grow
pub mod Readable
pub mod Moves
pub mod Bytes
pub mod Queue
mod Tests
use secs_lib.Common.{
  ℕ, zero, suc, ◌+◌, ◌-◌, ◌*◌, ◌/◌, ◌^◌, min, max, Bool, true, false, ◌||◌, ◌&&◌, List, [], ◌∷◌,
  ◌++◌, ltb, leb, ◌==◌, if◌then◌else◌, length, take, replicate, Option, none, some,
}
use secs_lib.Common.Outcome.{Result, ok, err}
use secs_lib.Common.Slices.{slice, splice}
use secs_lib.Core.Error.{Errc, buffer_overflow, invalid_argument, out_of_memory}

-- `std::numeric_limits<std::size_t>::max()`.
abbrev pub size_max : ℕ
size_max = 2 ^ 64 - 1

abbrev pub default_capacity : ℕ
default_capacity = 8 * 1024

pub record FixedBuffer : Type 0 where
  pub inline_bytes : List ℕ
  pub heap : Option (List ℕ)
  pub max_capacity : ℕ
  pub capacity : ℕ
  pub read_pos : ℕ
  pub write_pos : ℕ

unfoldable pub clamp_capacity : ℕ → ℕ → ℕ
clamp_capacity requested max_capacity =
    if requested == 0 || max_capacity == 0 then 0 else min requested max_capacity

unfoldable pub zeros : ℕ → List ℕ
zeros n = replicate n 0

-- The arrays that a new object has are filled with zeros.
unfoldable pub fixed_buffer : ℕ → ℕ → FixedBuffer
unfolding clamp_capacity
fixed_buffer initial_capacity max_capacity =
    let capacity = clamp_capacity initial_capacity max_capacity in
    record {
      inline_bytes = zeros default_capacity;
      heap = if ltb default_capacity capacity then some (zeros capacity) else none;
      max_capacity = max_capacity;
      capacity = capacity;
      read_pos = 0;
      write_pos = 0;
    }

unfoldable pub size : FixedBuffer → ℕ
size b = b.write_pos - b.read_pos

-- The array that `data_const` points to.
unfoldable pub chosen : Option (List ℕ) → List ℕ → List ℕ
chosen (some bytes) inline = bytes
chosen none inline = inline

unfoldable pub storage : FixedBuffer → List ℕ
unfolding chosen
storage b = chosen b.heap b.inline_bytes

-- The array that `data_mutable` points to, with new contents.
unfoldable pub with_chosen : Option (List ℕ) → FixedBuffer → List ℕ → FixedBuffer
with_chosen (some old) b bytes = record b { heap = some bytes }
with_chosen none b bytes = record b { heap = none; inline_bytes = bytes }

unfoldable pub with_storage : FixedBuffer → List ℕ → FixedBuffer
unfolding with_chosen
with_storage b bytes = with_chosen b.heap b bytes

unfoldable pub clear : FixedBuffer → FixedBuffer
clear b = record b { read_pos = 0; write_pos = 0 }

unfoldable pub readable_bytes : FixedBuffer → List ℕ
readable_bytes b = slice (storage b) b.read_pos b.write_pos

unfoldable pub compact : FixedBuffer → FixedBuffer
unfolding clear
compact b =
    if size b == 0
    then clear b
    else (if b.read_pos == 0
        then b
        else record (with_storage b (splice (storage b) 0 (readable_bytes b))) {
          read_pos = 0;
          write_pos = size b;
        })

-- The bytes behind the written ones, up to the capacity.
unfoldable pub writable_bytes : FixedBuffer → List ℕ
writable_bytes b =
    if ltb b.capacity b.write_pos then [] else slice (storage b) b.write_pos b.capacity

unfoldable pub commit : FixedBuffer → ℕ → Option Errc × FixedBuffer
commit b n =
    if n == 0
    then (none, b)
    else (if ltb b.capacity b.write_pos || ltb (b.capacity - b.write_pos) n
        then (some invalid_argument, b)
        else (none, record b { write_pos = b.write_pos + n }))

unfoldable pub consume : FixedBuffer → ℕ → Option Errc × FixedBuffer
unfolding clear
consume b n =
    if n == 0
    then (none, b)
    else (if ltb (size b) n then (some invalid_argument, b) else (
      none,
      (let moved = record b { read_pos = b.read_pos + n } in
          if moved.read_pos == moved.write_pos then clear moved else moved),
    ))

-- The loop of `grow`: on fuel, with the loop left where that runs out.
unfoldable pub doubled : ℕ → ℕ → ℕ → ℕ → Result Errc ℕ
doubled zero new_capacity min_capacity max_capacity = ok new_capacity
doubled (suc fuel) new_capacity min_capacity max_capacity =
    let rest = doubled fuel (min (new_capacity * 2) max_capacity) min_capacity max_capacity in
    if ltb new_capacity min_capacity
    then (if ltb (size_max / 2) new_capacity then err buffer_overflow else rest)
    else ok new_capacity

-- `!heap_`.
unfoldable pub is_inline : Option (List ℕ) → Bool
is_inline none = true
is_inline (some bytes) = false

-- A move leaves an empty buffer without capacity behind.
unfoldable pub moved_from : FixedBuffer → FixedBuffer
moved_from other = record other {
  heap = none;
  max_capacity = 0;
  capacity = 0;
  read_pos = 0;
  write_pos = 0;
}

-- The inline bytes after a move: the stretch in use is copied if there is no heap.
unfoldable pub moved_inline : Option (List ℕ) → List ℕ → FixedBuffer → List ℕ
moved_inline (some bytes) own other = own
moved_inline none own other =
    if ltb other.read_pos other.write_pos
    then splice own other.read_pos (readable_bytes other)
    else own

-- `operator=` from another object: the object, and what it leaves of the other one.
unfoldable pub move_assign : FixedBuffer → FixedBuffer → FixedBuffer × FixedBuffer
unfolding moved_from moved_inline
move_assign b other =
    (record other { inline_bytes = moved_inline other.heap b.inline_bytes other }, moved_from other)

-- The move constructor starts from inline bytes that are zeros.
unfoldable pub move_construct : FixedBuffer → FixedBuffer × FixedBuffer
unfolding moved_from moved_inline
move_construct other = (
  record other { inline_bytes = moved_inline other.heap (zeros default_capacity) other },
  moved_from other,
)

-- `memcpy` to the end of the written bytes, once there is room.
unfoldable pub copy_in : List ℕ → Option Errc × FixedBuffer → Option Errc × FixedBuffer
copy_in bytes (some e, b) = (some e, b)
copy_in bytes (none, b) = (
  none,
  record (with_storage b (splice (storage b) b.write_pos bytes)) {
    read_pos = b.read_pos;
    write_pos = b.write_pos + length bytes;
  },
)

-- What a writer leaves who puts bytes into `writable_bytes`.
unfoldable pub fill_writable : FixedBuffer → List ℕ → FixedBuffer
fill_writable b bytes = record (with_storage b (splice (storage b) b.write_pos bytes)) {
  read_pos = b.read_pos;
  write_pos = b.write_pos;
}

module _ (allocate : ℕ → Option (List ℕ)) where
  -- The new array takes the readable bytes to its front.
  unfoldable pub replaced : FixedBuffer → ℕ → Option (List ℕ) → Option Errc × FixedBuffer
  replaced b new_capacity none = (some out_of_memory, b)
  replaced b new_capacity (some fresh) = (
    none,
    record b {
      heap = some (splice fresh 0 (readable_bytes b));
      capacity = new_capacity;
      read_pos = 0;
      write_pos = size b;
    },
  )

  unfoldable pub reallocate : FixedBuffer → Result Errc ℕ → Option Errc × FixedBuffer
  unfolding replaced
  reallocate b (err e) = (some e, b)
  reallocate b (ok new_capacity) = replaced b new_capacity (allocate new_capacity)

  -- Growth past the inline bytes doubles the capacity until it is enough.
  unfoldable pub grow : FixedBuffer → ℕ → Option Errc × FixedBuffer
  unfolding reallocate is_inline
  grow b min_capacity =
      if leb min_capacity b.capacity
      then (none, b)
      else (if ltb b.max_capacity min_capacity
          then (some buffer_overflow, b)
          else (if is_inline b.heap && leb min_capacity default_capacity
              then (none, record b { capacity = min_capacity })
              else reallocate b
                  (doubled (suc min_capacity) (max b.capacity 1) min_capacity b.max_capacity)))

  unfoldable pub reserve : FixedBuffer → ℕ → Option Errc × FixedBuffer
  reserve b new_capacity =
      if leb new_capacity b.capacity
      then (none, b)
      else (if ltb b.max_capacity new_capacity
          then (some buffer_overflow, b)
          else grow b new_capacity)

  -- The last part of `ensure_writable`, where the bytes behind the written ones are too few.
  unfoldable pub grow_for : FixedBuffer → ℕ → Option Errc × FixedBuffer
  grow_for b n =
      if ltb (size_max - size b) n
      then (some buffer_overflow, b)
      else (if ltb b.max_capacity (size b + n)
          then (some buffer_overflow, b)
          else grow b (size b + n))

  unfoldable pub ensure_compacted : FixedBuffer → ℕ → Option Errc × FixedBuffer
  ensure_compacted b n =
      if ltb b.capacity b.write_pos
      then (some invalid_argument, b)
      else (if leb n (b.capacity - b.write_pos) then (none, b) else grow_for b n)

  unfoldable pub ensure_writable : FixedBuffer → ℕ → Option Errc × FixedBuffer
  ensure_writable b n =
      if n == 0
      then (none, b)
      else (if ltb b.capacity b.write_pos
          then (some invalid_argument, b)
          else (if leb n (b.capacity - b.write_pos)
              then (none, b)
              else (if b.read_pos == 0 then grow_for b n else ensure_compacted (compact b) n)))

  unfoldable pub append : FixedBuffer → List ℕ → Option Errc × FixedBuffer
  unfolding copy_in
  append b bytes =
      if length bytes == 0 then (none, b) else copy_in bytes (ensure_writable b (length bytes))
