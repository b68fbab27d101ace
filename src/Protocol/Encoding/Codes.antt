-- ===== src/Protocol/Encoding/Codes.antt =====
-- What it means that a decoder reads back what an encoder writes into a buffer, and the rules that
-- carry it through a sequence of fields.
use hauntty.Prelude.{ℕ, ◌≡◌, refl, ◌∙◌, List, [], ◌++◌, append-nil, append_assoc, ok}
use hauntty.Protocol.Encoding.{Encoder, Decoder, ◌>>◌, ◌>>=◌, pure}

-- `e` appends the bytes `wire`, and `d` takes just these off any input and returns `a`.
pub record Codes {A : Type 0} (e : Encoder (List ℕ)) (d : Decoder A) (a : A) : Type 0 where
  pub wire : List ℕ
  pub writes : (s : List ℕ) → e s ≡ ok (s ++ wire)
  pub reads : (rest : List ℕ) → d (wire ++ rest) ≡ ok (a, rest)

module _ {A B : Type 0} where
  pub Codes-seq :
      {e f : Encoder (List ℕ)} {d : Decoder A} (k : A → Decoder B) {a : A} {b : B}
      → Codes e d a
      → Codes f (k a) b
      → Codes (e >> f) (d >>= k) b
  Codes-seq k c c' = record {
    wire = c.wire ++ c'.wire;
    writes = λ s. rw (c.writes s, c'.writes (s ++ c.wire), append_assoc s c.wire c'.wire);
    reads =
        λ rest. rw (append_assoc c.wire c'.wire rest, c.reads (c'.wire ++ rest)) (c'.reads rest);
  }

  pub Codes-map :
      {e : Encoder (List ℕ)} {d : Decoder A} (f : A → B) {a : A}
      → Codes e d a
      → Codes e (d >>= λ x. pure (f x)) (f a)
  Codes-map f c = record { wire = c.wire; writes = c.writes; reads = λ rest. rw (c.reads rest) }

pub Codes-nothing : {A : Type 0} (a : A) → Codes ok (pure a) a
Codes-nothing a = record { wire = []; writes = λ s. rw append-nil; reads = λ rest. refl }

-- An encoder and a decoder may be replaced by ones that act alike.
pub Codes-eq :
    {A : Type 0} {e f : Encoder (List ℕ)} {d k : Decoder A} {a : A}
    → ((s : List ℕ) → f s ≡ e s)
    → ((bs : List ℕ) → k bs ≡ d bs)
    → Codes e d a
    → Codes f k a
Codes-eq w r c = record {
  wire = c.wire;
  writes = λ s. w s ∙ c.writes s;
  reads = λ rest. r (c.wire ++ rest) ∙ c.reads rest;
}
