-- ===== src/CaptureFrame.antt =====
-- src/core/capture-frame.ts: the frames that the shell (src-tauri/src/capture.rs) sends. A buffer is
-- the list of its bytes. The size that a header asks for is exact: a buffer is shorter than 2^53
-- bytes, where a double is exact, and a larger product is no buffer's size.
pub mod RoundTrip
use lo_lprox_chat.Common.{
  ℕ, zero, suc, ◌+◌, ◌*◌, ◌/◌, ◌%◌, Bool, Option, none, some, List, [], ◌∷◌, ◌++◌, ◌||◌, not,
  length, ltb, ◌==◌, nat_eq, if◌then◌else◌,
}

-- An `ArrayBuffer`, a view of one, or something else.
pub data Raw : Type 0 where
  buffer : List ℕ → Raw
  view : List ℕ → (byte_offset byte_length : ℕ) → Raw
  no_buffer : Raw

pub record CaptureFrame : Type 0 where
  pub width : ℕ
  pub height : ℕ
  pub pixels : List ℕ

-- The texts of the exceptions.
pub data FrameError : Type 0 where
  not_a_buffer : FrameError
  too_short : (bytes : ℕ) → FrameError
  zero_extent : (width height : ℕ) → FrameError
  wrong_length : (bytes width height needed : ℕ) → FrameError

pub data Decoded : Type 0 where
  frame : CaptureFrame → Decoded
  throws : FrameError → Decoded

-- `CAPTURE_FRAME_HEADER_BYTES`.
abbrev pub header_bytes : ℕ
header_bytes = 8

abbrev pub drop : ℕ → List ℕ → List ℕ
drop zero bytes = bytes
drop (suc n) [] = []
drop (suc n) (b ∷ bytes) = drop n bytes

abbrev pub take : ℕ → List ℕ → List ℕ
take zero bytes = []
take (suc n) [] = []
take (suc n) (b ∷ bytes) = b ∷ take n bytes

-- `getUint32(0, true)` of the bytes from there on.
unfoldable pub uint32 : List ℕ → ℕ
uint32 (a ∷ b ∷ c ∷ d ∷ bytes) = a + 256 * b + 65536 * c + 16777216 * d
uint32 bytes = 0

unfoldable pub decode_sized : List ℕ → ℕ → ℕ → ℕ → ℕ → Decoded
decode_sized bytes offset size width height =
    let needed = header_bytes + width * height * 4 in
    if width == 0 || height == 0
    then throws (zero_extent width height)
    else if not (size == needed)
    then throws (wrong_length size width height needed)
    else frame (record {
      width = width;
      height = height;
      pixels = take (width * height * 4) (drop (offset + header_bytes) bytes);
    })

-- The bytes of a buffer, with the part of it that counts.
unfoldable pub decode_part : List ℕ → ℕ → ℕ → Decoded
unfolding decode_sized uint32
decode_part bytes offset size =
    if ltb size header_bytes
    then throws (too_short size)
    else decode_sized bytes offset size (uint32 (drop offset bytes))
        (uint32 (drop (offset + 4) bytes))

unfoldable pub decode_capture_frame : Raw → Decoded
unfolding decode_part
decode_capture_frame (buffer bytes) = decode_part bytes 0 (length bytes)
decode_capture_frame (view bytes offset size) = decode_part bytes offset size
decode_capture_frame no_buffer = throws not_a_buffer
