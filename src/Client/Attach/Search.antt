-- ===== src/Client/Attach/Search.antt =====
-- bytes.Index and bytes.IndexByte find the first place, if there is one.
use hauntty.Prelude.{
  ℕ, suc, ◌≤◌, ◌≡◌, refl, sym, ap, ◌∙◌, Bool-cases, inl, inr, true, false, List, [], ◌∷◌, ◌++◌,
  Option, Option-cases, none, some, ◌==◌, take, length, arith,
}
use hauntty.Client.Attach.{starts_with, index, index_byte}

-- The bytes do not hold the sequence.
abbrev pub Nowhere : List ℕ → List ℕ → Type 0
Nowhere seq bytes = (xs ys : List ℕ) → bytes ≡ xs ++ (seq ++ ys) → ⊥

-- The bytes hold the sequence behind `before`, and nowhere earlier.
abbrev pub FirstAt : List ℕ → List ℕ → List ℕ → Type 0
FirstAt seq bytes before =
    ((rest : List ℕ) × (bytes ≡ before ++ (seq ++ rest)))
    × ((xs ys : List ℕ) → bytes ≡ xs ++ (seq ++ ys) → length before ≤ length xs)

starts_with-append : (seq ys : List ℕ) → starts_with seq (seq ++ ys) ≡ true
unfolding starts_with
starts_with-append [] ys = refl
starts_with-append (b ∷ seq) ys = ground (arith, starts_with-append seq ys)

starts_with-split :
    (seq bytes : List ℕ) → starts_with seq bytes ≡ true → (rest : List ℕ) × (bytes ≡ seq ++ rest)
unfolding starts_with
starts_with-split [] bytes h = (bytes, refl)
starts_with-split (b ∷ seq) [] h = cc
starts_with-split (b ∷ seq) (c ∷ bytes) h =
    let both : (b ≡ c) × (starts_with seq bytes ≡ true) = ground arith in
    let (rest, e) = starts_with-split seq bytes both.1 in (rest, rw (both.0, e) refl)

not_here : (seq bytes ys : List ℕ) → starts_with seq bytes ≡ false → bytes ≡ seq ++ ys → ⊥
not_here seq bytes ys h e =
    let there : starts_with seq bytes ≡ true = ap (starts_with seq) e ∙ starts_with-append seq ys in
    cc (h, there)

tail_of : List ℕ → List ℕ
tail_of [] = []
tail_of (c ∷ cs) = cs

next_index : Option ℕ → Option ℕ
next_index none = none
next_index (some i) = some (suc i)

next-none : (o : Option ℕ) → next_index o ≡ none → o ≡ none
unfolding next_index
next-none none e = refl
next-none (some i) e = cc

next-some : (o : Option ℕ) (i : ℕ) → next_index o ≡ some i → (j : ℕ) × (o ≡ some j) × (i ≡ suc j)
unfolding next_index
next-some none i e = cc
next-some (some j) i e = (j, refl, cc)

index-start : (seq bytes : List ℕ) → starts_with seq bytes ≡ true → index seq bytes ≡ some 0
unfolding index
index-start seq [] h = rw h
index-start seq (c ∷ cs) h = rw h

index-end : (seq : List ℕ) → starts_with seq [] ≡ false → index seq [] ≡ none
unfolding index
index-end seq h = rw h

index-there :
    (seq : List ℕ) (c : ℕ) (cs : List ℕ)
    → starts_with seq (c ∷ cs) ≡ false
    → index seq (c ∷ cs) ≡ next_index (index seq cs)
unfolding index next_index
index-there seq c cs h = elim (Option-cases (index seq cs)) [
  | inl e ↦ rw (h, e, index)
  | inr (i, e) ↦ rw (h, e, index)
]

unstarted : (seq bytes : List ℕ) → index seq bytes ≡ none → starts_with seq bytes ≡ false
unstarted seq bytes h = elim (Bool-cases (starts_with seq bytes)) [
  | inl f ↦ cc (h, index-start seq bytes f)
  | inr f ↦ f
]

pub index-Nowhere : (seq bytes : List ℕ) → index seq bytes ≡ none → Nowhere seq bytes
unfolding tail_of
index-Nowhere seq [] h [] ys e = not_here seq [] ys (unstarted seq [] h) e
index-Nowhere seq [] h (x ∷ xs) ys e = cc
index-Nowhere seq (c ∷ cs) h [] ys e = not_here seq (c ∷ cs) ys (unstarted seq (c ∷ cs) h) e
index-Nowhere seq (c ∷ cs) h (x ∷ xs) ys e =
    let later = index-there seq c cs (unstarted seq (c ∷ cs) h) in
    index-Nowhere seq cs (next-none (index seq cs) (sym later ∙ h)) xs ys (ap tail_of e)

first_here : (seq bytes : List ℕ) → starts_with seq bytes ≡ true → FirstAt seq bytes []
first_here seq bytes f = (starts_with-split seq bytes f, λ xs ys e. omega arith)

least_later :
    (seq : List ℕ) (c : ℕ) (cs before : List ℕ)
    → starts_with seq (c ∷ cs) ≡ false
    → FirstAt seq cs before
    → (xs ys : List ℕ) → c ∷ cs ≡ xs ++ (seq ++ ys)
    → length (c ∷ before) ≤ length xs
unfolding tail_of
least_later seq c cs before f first [] ys e = absurd (not_here seq (c ∷ cs) ys f e)
least_later seq c cs before f first (x ∷ xs) ys e =
    let inner = first.1 xs ys (ap tail_of e) in omega arith

first_later :
    (seq : List ℕ) (c : ℕ) (cs before : List ℕ)
    → starts_with seq (c ∷ cs) ≡ false
    → FirstAt seq cs before
    → FirstAt seq (c ∷ cs) (c ∷ before)
first_later seq c cs before f first =
    ((first.0.0, ap (λ bs. c ∷ bs) first.0.1), least_later seq c cs before f first)

pub index-FirstAt :
    (seq bytes : List ℕ) (i : ℕ) → index seq bytes ≡ some i → FirstAt seq bytes (take i bytes)
index-FirstAt seq [] i h = elim (Bool-cases (starts_with seq [])) [
  | inl f ↦ let here : i ≡ 0 = cc (h, index-start seq [] f) in rw here (first_here seq [] f)
  | inr f ↦ cc (h, index-end seq f)
]
index-FirstAt seq (c ∷ cs) i h = elim (Bool-cases (starts_with seq (c ∷ cs))) [
  | inl f ↦
      let here : i ≡ 0 = cc (h, index-start seq (c ∷ cs) f) in rw here (first_here seq (c ∷ cs) f)
  | inr f ↦
      let (j, found, place) = next-some (index seq cs) i (sym (index-there seq c cs f) ∙ h) in
      rw place (first_later seq c cs (take j cs) f (index-FirstAt seq cs j found))
]

pub byte_lem : (b : ℕ) (bytes : List ℕ) → index_byte b bytes ≡ index (b ∷ []) bytes
unfolding index_byte index starts_with
byte_lem b [] = refl
byte_lem b (c ∷ cs) = elim (Bool-cases (c == b)) [
  | inl e ↦ let same : (b == c) ≡ true = ground arith in rw (e, same)
  | inr e ↦ let same : (b == c) ≡ false = ground arith in rw (e, same, byte_lem b cs)
]
