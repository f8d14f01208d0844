-- ===== src/CaptureFrame/RoundTrip.antt =====
-- src/core/capture-frame.ts against the layout that src-tauri/src/capture.rs writes.
use mathlib.Core.Path.{subst}
use lo_lprox_chat.Common.{
  ℕ, zero, suc, ◌+◌, ◌-◌, ◌*◌, ◌/◌, ◌%◌, ◌<◌, ◌≤◌, ◌≡◌, ◌≢◌, refl, sym, ap, ◌∙◌, List, [], ◌∷◌,
  ◌++◌, All, length, arith, nat_eq, nat_beq_iff,
}
use lo_lprox_chat.CaptureFrame.{
  buffer, view, CaptureFrame, frame, take, drop, uint32, decode_sized, decode_part,
  decode_capture_frame, header_bytes,
}

-- `to_le_bytes` of a `u32`.
abbrev pub le_bytes : ℕ → List ℕ
le_bytes n = (n % 256) ∷ (n / 256 % 256) ∷ (n / 65536 % 256) ∷ (n / 16777216 % 256) ∷ []

-- The frame of `capture_minimap`.
abbrev pub encode_frame : CaptureFrame → List ℕ
encode_frame f = le_bytes f.width ++ le_bytes f.height ++ f.pixels

uint32-le_bytes : (n : ℕ) (rest : List ℕ) → n < 4294967296 → uint32 (le_bytes n ++ rest) ≡ n
unfolding uint32
uint32-le_bytes n rest h = omega (arith)

append_nil : (xs : List ℕ) → xs ++ [] ≡ xs
append_nil [] = refl
append_nil (x ∷ xs) = ap (λ l. x ∷ l) (append_nil xs)

take-length : (xs ys : List ℕ) → take (length xs) (xs ++ ys) ≡ xs
take-length [] ys = refl
take-length (x ∷ xs) ys = ap (λ l. x ∷ l) (take-length xs ys)

drop-add : (xs ys : List ℕ) (n m : ℕ) → n ≡ length xs + m → drop n (xs ++ ys) ≡ drop m ys
drop-add [] ys n m e = ap (λ k. drop k ys) (omega (arith, e))
drop-add (x ∷ xs) ys zero m e = absurd (omega (arith, e))
drop-add (x ∷ xs) ys (suc n) m e = drop-add xs ys n m (omega (arith, e))

-- A frame that the header can describe, with all its pixels.
pub record IsFrame (f : CaptureFrame) : Type 0 where
  pub wide : f.width ≢ 0
  pub high : f.height ≢ 0
  pub width_fits : f.width < 4294967296
  pub height_fits : f.height < 4294967296
  pub full : length f.pixels ≡ f.width * f.height * 4

decode_sized-ok :
    (bytes : List ℕ) (offset size width height : ℕ)
    → width ≢ 0
    → height ≢ 0
    → size ≡ 8 + width * height * 4
    → decode_sized bytes offset size width height
      ≡ frame (record {
        width = width;
        height = height;
        pixels = take (width * height * 4) (drop (offset + header_bytes) bytes);
      })
unfolding decode_sized
decode_sized-ok bytes offset size width height w h e =
    ground
      (arith, nat_beq_iff width 0, nat_beq_iff height 0, nat_beq_iff size (8 + width * height * 4))

decode_part-sized :
    (bytes : List ℕ) (offset size : ℕ)
    → header_bytes ≤ size
    → decode_part bytes offset size
      ≡ decode_sized bytes offset size
          (uint32 (drop offset bytes))
          (uint32 (drop (offset + 4) bytes))
unfolding decode_part
decode_part-sized bytes offset size h = ground arith

decode_part-encode :
    (f : CaptureFrame) (before after : List ℕ)
    → IsFrame f
    → decode_part (before ++ (encode_frame f ++ after)) (length before) (length (encode_frame f))
      ≡ frame f
decode_part-encode f before after v =
    let bytes = before ++ (encode_frame f ++ after) in
    let wide : uint32 (drop (length before) bytes) ≡ f.width =
      ap uint32 (drop-add before (encode_frame f ++ after) (length before) 0 (omega arith))
      ∙ uint32-le_bytes f.width (le_bytes f.height ++ (f.pixels ++ after)) v.width_fits in
    let high : uint32 (drop (length before + 4) bytes) ≡ f.height =
      ap uint32 (drop-add before (encode_frame f ++ after) (length before + 4) 4 refl)
      ∙ uint32-le_bytes f.height (f.pixels ++ after) v.height_fits in
    let rest : take (f.width * f.height * 4) (drop (length before + header_bytes) bytes)
        ≡ f.pixels =
      ap (take (f.width * f.height * 4))
        (drop-add before (encode_frame f ++ after) (length before + header_bytes) 8 refl)
      ∙ ap (λ n. take n (f.pixels ++ after)) (sym v.full)
      ∙ take-length f.pixels after in
    decode_part-sized bytes (length before) (length (encode_frame f)) (omega arith)
    ∙ ap
        (λ n.
          decode_sized bytes (length before) (length (encode_frame f)) n
            (uint32 (drop (length before + 4) bytes)))
        wide
    ∙ ap (decode_sized bytes (length before) (length (encode_frame f)) f.width) high
    ∙ decode_sized-ok bytes (length before) (length (encode_frame f)) f.width f.height v.wide v.high
        (omega (arith, v.full))
    ∙ ap (λ l. frame (record f { pixels = l })) rest

-- What is decoded of the bytes of such a frame is the frame, also where they stand inside a larger
-- buffer that a view cuts them from.
pub decode_capture_frame-encode :
    (f : CaptureFrame) (before after : List ℕ)
    → IsFrame f
    → (decode_capture_frame (buffer (encode_frame f)) ≡ frame f)
      × (decode_capture_frame
            (view (before ++ (encode_frame f ++ after)) (length before) (length (encode_frame f)))
          ≡ frame f)
unfolding decode_capture_frame
decode_capture_frame-encode f before after v = (
  ap (λ l. decode_part l 0 (length (encode_frame f))) (sym (append_nil (encode_frame f)))
      ∙ decode_part-encode f [] [] v,
  decode_part-encode f before after v,
)

-- Of bytes, whatever is decoded is such a frame, and they are its encoding.
abbrev IsByte : ℕ → Type 0
IsByte b = b < 256

list4 :
    (a b c d a' b' c' d' : ℕ) (rest : List ℕ)
    → a ≡ a'
    → b ≡ b'
    → c ≡ c'
    → d ≡ d'
    → (a ∷ b ∷ c ∷ d ∷ rest) ≡ (a' ∷ b' ∷ c' ∷ d' ∷ rest)
list4 a b c d a' b' c' d' rest e f g h = cc

drop-nil : (n m : ℕ) → drop n [] ≡ drop m []
drop-nil zero zero = refl
drop-nil zero (suc m) = refl
drop-nil (suc n) zero = refl
drop-nil (suc n) (suc m) = refl

-- The first four bytes are those of the number that they make.
le_bytes-uint32 :
    (xs : List ℕ)
    → All IsByte xs
    → 4 ≤ length xs
    → (uint32 xs < 4294967296) × (xs ≡ le_bytes (uint32 xs) ++ drop 4 xs)
unfolding uint32
le_bytes-uint32 (a ∷ b ∷ c ∷ d ∷ rest) h e = (
  omega arith,
  list4 a b c d _ _ _ _ rest (omega arith) (omega arith) (omega arith) (omega arith),
)
le_bytes-uint32 (a ∷ b ∷ c ∷ []) h e = absurd (omega arith)
le_bytes-uint32 (a ∷ b ∷ []) h e = absurd (omega arith)
le_bytes-uint32 (a ∷ []) h e = absurd (omega arith)
le_bytes-uint32 [] h e = absurd (omega arith)

All-drop : (n : ℕ) (xs : List ℕ) → All IsByte xs → All IsByte (drop n xs)
All-drop zero xs h = h
All-drop (suc n) [] h = tt
All-drop (suc n) (x ∷ xs) h = All-drop n xs h.1

length-drop : (n : ℕ) (xs : List ℕ) → length (drop n xs) ≡ length xs - n
length-drop zero xs = omega arith
length-drop (suc n) [] = omega arith
length-drop (suc n) (x ∷ xs) = omega (arith, length-drop n xs)

drop-drop : (n m : ℕ) (xs : List ℕ) → drop n (drop m xs) ≡ drop (m + n) xs
drop-drop n zero xs = ap (λ k. drop k xs) (omega arith)
drop-drop n (suc m) [] = drop-nil n (suc m + n)
drop-drop n (suc m) (x ∷ xs) =
    let e : suc m + n ≡ suc (m + n) = omega arith in rw e (drop-drop n m xs)

decode_sized-inv :
    (bytes : List ℕ) (offset size width height : ℕ) (f : CaptureFrame)
    → decode_sized bytes offset size width height ≡ frame f
    → (width ≢ 0)
      × (height ≢ 0)
      × (size ≡ 8 + width * height * 4)
      × (f ≡ record {
        width = width;
        height = height;
        pixels = take (width * height * 4) (drop (offset + header_bytes) bytes);
      })
unfolding decode_sized
decode_sized-inv bytes offset size width height f e =
    ground
      (arith, nat_beq_iff width 0, nat_beq_iff height 0, nat_beq_iff size (8 + width * height * 4))

take-all : (n : ℕ) (xs : List ℕ) → n ≡ length xs → take n xs ≡ xs
take-all zero [] e = refl
take-all zero (x ∷ xs) e = absurd (omega (arith, e))
take-all (suc n) [] e = refl
take-all (suc n) (x ∷ xs) e = ap (λ l. x ∷ l) (take-all n xs (omega (arith, e)))

decode_part-long :
    (bytes : List ℕ) (f : CaptureFrame)
    → decode_part bytes 0 (length bytes) ≡ frame f
    → header_bytes ≤ length bytes
unfolding decode_part
decode_part-long bytes f e = ground arith

-- Bytes that are decoded are the encoding of what is decoded, which is a frame with an extent that
-- fits the header and with all its pixels; so what is shorter than a header, has no extent, or has
-- fewer or more bytes than its header asks for is refused.
pub decode_capture_frame-inv :
    (bytes : List ℕ) (f : CaptureFrame)
    → All IsByte bytes
    → decode_capture_frame (buffer bytes) ≡ frame f
    → IsFrame f × (bytes ≡ encode_frame f)
unfolding decode_capture_frame
decode_capture_frame-inv bytes f h e =
    let long : header_bytes ≤ length bytes = decode_part-long bytes f e in
    let (wide, high, sized, is) =
      decode_sized-inv bytes 0 (length bytes) (uint32 bytes) (uint32 (drop 4 bytes)) f
        (sym (decode_part-sized bytes 0 (length bytes) long) ∙ e) in
    let first = le_bytes-uint32 bytes h (omega (arith, long)) in
    let second =
      le_bytes-uint32 (drop 4 bytes) (All-drop 4 bytes h)
        (omega (arith, long, length-drop 4 bytes)) in
    let pixels =
      take-all (uint32 bytes * uint32 (drop 4 bytes) * 4) (drop 8 bytes)
        (omega (arith, sized, length-drop 8 bytes)) in
    let is' : f
        ≡ record { width = uint32 bytes; height = uint32 (drop 4 bytes); pixels = drop 8 bytes } =
      is
      ∙ ap (λ l. record { width = uint32 bytes; height = uint32 (drop 4 bytes); pixels = l })
          pixels in
    subst (λ g. IsFrame g × (bytes ≡ encode_frame g)) (sym is')
      (
        record {
          wide = wide;
          high = high;
          width_fits = first.0;
          height_fits = second.0;
          full = omega (arith, sized, length-drop 8 bytes);
        },
        first.1
            ∙ ap (λ l. le_bytes (uint32 bytes) ++ l)
                (second.1 ∙ ap (λ l. le_bytes (uint32 (drop 4 bytes)) ++ l) (drop-drop 4 4 bytes)),
      )
