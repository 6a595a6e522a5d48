-- ===== src/Nar/Frames.antt =====
-- nar.py: a text of frames has one reading.
use frappe_nix.Prelude.{
  ℕ, zero, suc, ◌*◌, ◌/◌, ◌<◌, ◌≡◌, refl, sym, ap, ◌∙◌, List, [], ◌∷◌, ◌++◌, All, length, arith,
  append_assoc,
}
use frappe_nix.Nar.{Bytes, to_bytes, zeros, padding, frame, str}

-- 256 to the power k
abbrev pub byte_power : ℕ → ℕ
byte_power zero = 1
byte_power (suc k) = 256 * byte_power k

-- The length fits in eight bytes.
abbrev pub Fits : Bytes → Type 0
Fits data' = length data' < byte_power 8

cons_injective : {x y : ℕ} {xs ys : Bytes} → x ∷ xs ≡ y ∷ ys → (x ≡ y) × (xs ≡ ys)
cons_injective h = (cc, cc)

-- Texts of one length in front of others.
pub append_cancel :
    (xs ys : Bytes) {u v : Bytes} → length xs ≡ length ys → xs ++ u ≡ ys ++ v → (xs ≡ ys) × (u ≡ v)
append_cancel [] [] n h = (refl, h)
append_cancel [] (y ∷ ys) n h = absurd (omega arith)
append_cancel (x ∷ xs) [] n h = absurd (omega arith)
append_cancel (x ∷ xs) (y ∷ ys) n h =
    let (head, tail) = cons_injective h in
    let (e, rest) = append_cancel xs ys (omega arith) tail in (cc, rest)

length-to_bytes : (k n : ℕ) → length (to_bytes k n) ≡ k
length-to_bytes zero n = refl
length-to_bytes (suc k) n = ap suc (length-to_bytes k (n / 256))

to_bytes_injective :
    (k m n : ℕ) → m < byte_power k → n < byte_power k → to_bytes k m ≡ to_bytes k n → m ≡ n
to_bytes_injective zero m n hm hn e = omega arith
to_bytes_injective (suc k) m n hm hn e =
    let (low, high) = cons_injective e in
    omega (arith, low, to_bytes_injective k (m / 256) (n / 256) (omega arith) (omega arith) high)

-- A frame in front of a text can be read off in one way.
frame_cancel :
    (a b : Bytes) {u v : Bytes} → Fits a → Fits b → frame a ++ u ≡ frame b ++ v → (a ≡ b) × (u ≡ v)
unfolding frame
frame_cancel a b {u} {v} fa fb h =
    let h1 =
      sym (append_assoc (to_bytes 8 (length a)) (a ++ zeros (padding (length a))) u)
      ∙ h
      ∙ append_assoc (to_bytes 8 (length b)) (b ++ zeros (padding (length b))) v in
    let (size, rest) =
      append_cancel (to_bytes 8 (length a)) (to_bytes 8 (length b))
        (length-to_bytes 8 (length a) ∙ sym (length-to_bytes 8 (length b))) h1 in
    let n : length a ≡ length b = to_bytes_injective 8 (length a) (length b) fa fb size in
    let rest' =
      sym (append_assoc a (zeros (padding (length a))) u)
      ∙ rest
      ∙ append_assoc b (zeros (padding (length b))) v in
    let (e, tail) = append_cancel a b n rest' in
    let (pad, out) =
      append_cancel (zeros (padding (length a))) (zeros (padding (length b)))
        (ap (λ k. length (zeros (padding k))) n) tail in
    (e, out)

-- Feeding the hash one frame after another.
abbrev pub feed : List Bytes → Bytes → Bytes
feed [] h = h
feed (d ∷ ds) h = feed ds (str d h)

abbrev frames : List Bytes → Bytes
frames [] = []
frames (d ∷ ds) = frame d ++ frames ds

append_nil : (xs : Bytes) → xs ++ [] ≡ xs
append_nil [] = refl
append_nil (x ∷ xs) = ap (λ rest. x ∷ rest) (append_nil xs)

feed-frames : (ds : List Bytes) (h : Bytes) → feed ds h ≡ h ++ frames ds
feed-frames [] h = sym (append_nil h)
feed-frames (d ∷ ds) h = feed-frames ds (h ++ frame d) ∙ append_assoc h (frame d) (frames ds)

frames_injective :
    (ds es : List Bytes) → All Fits ds → All Fits es → frames ds ≡ frames es → ds ≡ es
unfolding frame
frames_injective [] [] fd fe h = refl
frames_injective [] (e ∷ es) fd fe h = cc
frames_injective (d ∷ ds) [] fd fe h = cc
frames_injective (d ∷ ds) (e ∷ es) (f, fd) (g, fe) h =
    let (x, rest) = frame_cancel d e f g h in let ih = frames_injective ds es fd fe rest in cc

pub feed_injective :
    (ds es : List Bytes) (h : Bytes) → All Fits ds → All Fits es → feed ds h ≡ feed es h → ds ≡ es
feed_injective ds es h fd fe e =
    frames_injective ds es fd fe
      (append_cancel h h refl (sym (feed-frames ds h) ∙ e ∙ feed-frames es h)).1
