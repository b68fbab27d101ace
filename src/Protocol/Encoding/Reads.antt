-- ===== src/Protocol/Encoding/Reads.antt =====
-- What a successful read tells about the input, and the errors of an input that ends too early.
use hauntty.Prelude.{
  All-of-append, ℕ, List, [], ◌∷◌, ◌++◌, ◌<◌, ◌^◌, ◌/◌, ◌%◌, ◌≡◌, refl, sym, ap, ap₂, ◌∙◌, arith,
  ◌==◌, leb, if◌then◌else◌, length, take, drop, take-append-drop, length-take, Bool-cases, inl, inr,
  ok, err, bind-eq-ok, All,
}
use hauntty.Protocol.Encoding.{
  WireError, eof, unexpected_eof, read_full, read_u8, read_u32, put_u32, big_endian,
}
use hauntty.Protocol.Encoding.Primitives.{IsU8}

-- The error of io.ReadFull after `have` bytes.
abbrev pub short : ℕ → WireError
short have = if have == 0 then eof else unexpected_eof

pub read_full-short :
    (n : ℕ) (bs : List ℕ) → length bs < n → read_full n bs ≡ err (short (length bs))
unfolding read_full
read_full-short n bs h = ground arith

-- A successful read splits the input.
pub read_full-splits :
    (n : ℕ) (bs : List ℕ) {b rest : List ℕ}
    → read_full n bs ≡ ok (b, rest)
    → (bs ≡ b ++ rest) × (length b ≡ n)
unfolding read_full
read_full-splits n bs {b} {rest} e = elim (Bool-cases (leb n (length bs))) [
  | inl fits ↦
      let whole : ◌≡◌ {A = List ℕ × List ℕ} (take n bs, drop n bs) (b, rest) = ground (arith, e) in
      (ground (arith, take-append-drop n bs), ground (arith, length-take n bs))
  | inr short_of ↦ ground arith
]

-- The digit recursion of a word, one digit at a time.
put_u32-digits :
    (a b c d : ℕ)
    → IsU8 a
    → IsU8 b
    → IsU8 c
    → IsU8 d
    → put_u32 (big_endian 0 (a ∷ b ∷ c ∷ d ∷ [])) ≡ a ∷ b ∷ c ∷ d ∷ []
put_u32-digits a b c d ha hb hc hd =
    let v : ℕ = big_endian 0 (a ∷ b ∷ c ∷ d ∷ []) in
    let e1 : v / 2 ^ 24 % 256 ≡ a = omega arith in
    let e2 : v / 2 ^ 16 % 256 ≡ b = omega arith in
    let e3 : v / 2 ^ 8 % 256 ≡ c = omega arith in let e4 : v % 256 ≡ d = omega arith in cc

put_u32-big_endian : (b : List ℕ) → length b ≡ 4 → All IsU8 b → put_u32 (big_endian 0 b) ≡ b
put_u32-big_endian (a ∷ b ∷ c ∷ d ∷ []) e h = put_u32-digits a b c d h.0 h.1.0 h.1.1.0 h.1.1.1.0
put_u32-big_endian [] e h = absurd (omega arith)
put_u32-big_endian (a ∷ []) e h = absurd (omega arith)
put_u32-big_endian (a ∷ b ∷ []) e h = absurd (omega arith)
put_u32-big_endian (a ∷ b ∷ c ∷ []) e h = absurd (omega arith)
put_u32-big_endian (a ∷ b ∷ c ∷ d ∷ x ∷ r) e h = absurd (omega arith)

-- A word that was read stands in front of what is left.
pub read_u32-splits :
    (bs : List ℕ) {n : ℕ} {rest : List ℕ}
    → All IsU8 bs
    → read_u32 bs ≡ ok (n, rest)
    → bs ≡ put_u32 n ++ rest
unfolding read_u32
read_u32-splits bs {n} {rest} h e =
    let (p, found, same) = bind-eq-ok (read_full 4 bs) _ e in
    let (split, size) = read_full-splits 4 bs {b = p.0} {rest = p.1} found in
    let bytes = All-of-append IsU8 p.0 p.1 (rw split at h) in
    let digits = put_u32-big_endian p.0 size bytes.0 in
    let number : big_endian 0 p.0 ≡ n = cc same in
    let left : p.1 ≡ rest = cc same in split ∙ ap₂ ◌++◌ (sym digits ∙ ap put_u32 number) left

pub read_u32-short : (bs : List ℕ) → length bs < 4 → read_u32 bs ≡ err (short (length bs))
unfolding read_u32
read_u32-short bs h = rw (read_full-short 4 bs h)

pub read_u8-nil : read_u8 [] ≡ err eof
unfolding read_u8
read_u8-nil = refl
