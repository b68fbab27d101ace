-- ===== src/Protocol/Encoding/Ranges.antt =====
-- What a decoder returns fits the widths of its fields, whatever bytes came in.
use hauntty.Prelude.{
  ℕ, zero, suc, ◌≤◌, Bool, List, [], ◌∷◌, ◌≡◌, refl, ap, arith, ltb, ◌==◌, if◌then◌else◌, length,
  All, All-of-append, ok, bind-eq-ok, subst, true, false, not-ltb→le,
}
use hauntty.Protocol.Encoding.{
  Decoder, pure, fail, ◌>>=◌, max_frame_size, big_endian, i32_of_u32, WireError,
  slice_count_exceeds, slice_size_exceeds, read_full, read_u8, read_u16, read_u32, read_i32,
  read_bool, read_string, read_times, read_string_slice, read_bytes,
}
use hauntty.Protocol.Encoding.Primitives.{IsU8, IsU16, IsU32, IsI32, IsShort, AreShort, IsBlob}
use hauntty.Protocol.Encoding.Reads.{read_full-splits}

-- On bytes, `d` returns values with `P`, and leaves bytes.
pub record Yields {A : Type 0} (d : Decoder A) (P : A → Type 0) : Type 0 where
  pub holds :
      (bs : List ℕ) (a : A) (rest : List ℕ)
      → All IsU8 bs
      → d bs ≡ ok (a, rest)
      → P a × All IsU8 rest

module _ {A : Type 0} {P : A → Type 0} where
  pub Yields-pure : {a : A} → P a → Yields (pure a) P
  Yields-pure {a} h = record {
    holds = λ bs x rest bytes e. (subst P (cc e) h, subst (All IsU8) (cc e) bytes);
  }

  pub Yields-fail : (w : WireError) → Yields (fail w) P
  Yields-fail w = record { holds = λ bs x rest bytes e. cc e }

  pub Yields-if :
      (b : Bool) {d e : Decoder A}
      → (b ≡ true → Yields d P)
      → (b ≡ false → Yields e P)
      → Yields (if b then d else e) P
  Yields-if true y z = y refl
  Yields-if false y z = z refl

module _ {A B : Type 0} {P : A → Type 0} {Q : B → Type 0} where
  pub Yields-bind :
      {d : Decoder A} {k : A → Decoder B}
      → Yields d P
      → ((a : A) → P a → Yields (k a) Q)
      → Yields (d >>= k) Q
  Yields-bind {d} {k} y z = record {
    holds = λ bs b rest bytes e.
        let (p, found, after) = bind-eq-ok (d bs) (λ p. k p.0 p.1) e in
        let (h, left) = y.holds bs p.0 p.1 bytes found in (z p.0 h).holds p.1 b rest left after;
  }

Yields-full : (n : ℕ) → Yields (read_full n) (λ b. (length b ≡ n) × All IsU8 b)
Yields-full n = record {
  holds = λ bs b rest bytes e.
      let (split, size) = read_full-splits n bs {b = b} {rest = rest} e in
      let parts = All-of-append IsU8 b rest (subst (All IsU8) split bytes) in
      ((size, parts.0), parts.1);
}

-- Words of one, two and four bytes.
word8 : (b : List ℕ) → length b ≡ 1 → All IsU8 b → IsU8 (big_endian 0 b)
word8 (a ∷ []) e h = omega (arith, h.0)
word8 [] e h = absurd (omega arith)
word8 (a ∷ x ∷ r) e h = absurd (omega arith)

word16 : (b : List ℕ) → length b ≡ 2 → All IsU8 b → IsU16 (big_endian 0 b)
word16 (a ∷ b ∷ []) e h = omega (arith, h.0, h.1.0)
word16 [] e h = absurd (omega arith)
word16 (a ∷ []) e h = absurd (omega arith)
word16 (a ∷ b ∷ x ∷ r) e h = absurd (omega arith)

word32 : (b : List ℕ) → length b ≡ 4 → All IsU8 b → IsU32 (big_endian 0 b)
word32 (a ∷ b ∷ c ∷ d ∷ []) e h = omega (arith, h.0, h.1.0, h.1.1.0, h.1.1.1.0)
word32 [] e h = absurd (omega arith)
word32 (a ∷ []) e h = absurd (omega arith)
word32 (a ∷ b ∷ []) e h = absurd (omega arith)
word32 (a ∷ b ∷ c ∷ []) e h = absurd (omega arith)
word32 (a ∷ b ∷ c ∷ d ∷ x ∷ r) e h = absurd (omega arith)

i32_of_u32-IsI32 : (u : ℕ) → IsU32 u → IsI32 (i32_of_u32 u)
i32_of_u32-IsI32 u h = ground arith

pub Yields-read_u8 : Yields read_u8 IsU8
unfolding read_u8
Yields-read_u8 = Yields-bind (Yields-full 1) (λ b h. Yields-pure (word8 b h.0 h.1))

pub Yields-read_u16 : Yields read_u16 IsU16
unfolding read_u16
Yields-read_u16 = Yields-bind (Yields-full 2) (λ b h. Yields-pure (word16 b h.0 h.1))

pub Yields-read_u32 : Yields read_u32 IsU32
unfolding read_u32
Yields-read_u32 = Yields-bind (Yields-full 4) (λ b h. Yields-pure (word32 b h.0 h.1))

pub Yields-read_i32 : Yields read_i32 IsI32
unfolding read_i32
Yields-read_i32 =
    Yields-bind (Yields-full 4)
      (λ b h. Yields-pure (i32_of_u32-IsI32 (big_endian 0 b) (word32 b h.0 h.1)))

pub Yields-bool : Yields read_bool (λ _. Unit)
unfolding read_bool
Yields-bool = Yields-bind (Yields-full 1) (λ b h. Yields-pure tt)

Yields-weaken :
    {A : Type 0} {P Q : A → Type 0} {d : Decoder A}
    → ((a : A) → P a → Q a)
    → Yields d P
    → Yields d Q
Yields-weaken f y = record {
  holds = λ bs a rest bytes e. let (h, left) = y.holds bs a rest bytes e in (f a h, left);
}

pub Yields-string : Yields read_string IsShort
unfolding read_string
Yields-string = Yields-bind Yields-read_u16 λ n h.
    Yields-if (n == 0) (λ _. Yields-pure (omega arith))
      (λ _. Yields-weaken (λ b s. omega arith) (Yields-full n))

pub Yields-times :
    {A : Type 0} {P : A → Type 0} {d : Decoder A} (n : ℕ)
    → Yields d P
    → Yields (read_times n d) (λ xs. (length xs ≡ n) × All P xs)
unfolding read_times
Yields-times zero y = Yields-pure (refl, tt)
Yields-times (suc n) y =
    Yields-bind y
      λ a h. Yields-bind (Yields-times n y) λ xs hs. Yields-pure (ap suc hs.0, (h, hs.1))

-- A list behind its count.
pub Yields-counted :
    {A : Type 0} {P : A → Type 0} {d : Decoder A} (n : ℕ) (w : WireError)
    → Yields d P
    → Yields
        (if ltb max_frame_size n then fail w else read_times n d)
        (λ xs. (length xs ≤ max_frame_size) × All P xs)
Yields-counted n w y =
    Yields-if (ltb max_frame_size n) (λ _. Yields-fail w)
      λ within.
        Yields-weaken (λ xs h. (omega (arith, h.0, not-ltb→le max_frame_size n within), h.1))
          (Yields-times n y)

pub Yields-string_slice : Yields read_string_slice AreShort
unfolding read_string_slice
Yields-string_slice =
    Yields-bind Yields-read_u32 (λ n h. Yields-counted n (slice_count_exceeds n) Yields-string)

pub Yields-bytes : Yields read_bytes IsBlob
unfolding read_bytes
Yields-bytes = Yields-bind Yields-read_u32 λ n h.
    Yields-if (n == 0) (λ _. Yields-pure (omega arith))
      λ _.
        Yields-if (ltb max_frame_size n) (λ _. Yields-fail (slice_size_exceeds n))
          λ within.
            Yields-weaken (λ b s. omega (arith, not-ltb→le max_frame_size n within)) (Yields-full n)
