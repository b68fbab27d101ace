-- ===== src/Client/Attach/Cursor.antt =====
-- The cursor row of a terminal's report.
use hauntty.Prelude.{
  ℕ, zero, suc, ◌≡◌, refl, ap, ◌∙◌, subst, ◌+◌, ◌-◌, ◌*◌, ◌/◌, ◌%◌, ◌^◌, ◌<◌, ◌≤◌, Bool-cases, inl,
  inr, true, false, ◌||◌, List, [], ◌∷◌, ◌++◌, none, some, Text, ltb, leb, ◌==◌, if◌then◌else◌,
  length, take, append_assoc, All, arith,
}
use hauntty.Daemon.Session.Decimal.{decimal_digits, decimal}
use hauntty.Daemon.Session.Numbers.{read_digits, read_digits-decimal}
use hauntty.Client.Attach.{
  csi, last_byte, read_response, after_last, cut, parse_row, positive_or, row_before, row_in,
  cursor_row_of, read_cursor_row,
}

abbrev IsDigit : ℕ → Type 0
IsDigit b = (48 ≤ b) × (b ≤ 57)

digits-All :
    (fuel n : ℕ) (rest : Text) → All IsDigit rest → All IsDigit (decimal_digits fuel n rest)
unfolding decimal_digits
digits-All zero n rest h = h
digits-All (suc fuel) n rest h =
    let digit : IsDigit (48 + n % 10) = (omega arith, omega arith) in
    elim (Bool-cases (ltb n 10)) [
      | inl e ↦ rw e (digit, h)
      | inr e ↦ rw e (digits-All fuel (n / 10) ((48 + n % 10) ∷ rest) (digit, h))
    ]

decimal-All : (n : ℕ) → All IsDigit (decimal n)
unfolding decimal
decimal-All n = digits-All (suc n) n [] tt

read_digits_grows : (acc : ℕ) (digits : Text) → acc ≤ read_digits acc digits
read_digits_grows acc [] = omega arith
read_digits_grows acc (d ∷ digits) =
    let more = read_digits_grows (acc * 10 + (d - 48)) digits in omega (arith, more)

-- Digits of a number that an int holds are read without a wrap.
parse_row-digits :
    (acc : ℕ) (digits : Text)
    → All IsDigit digits
    → read_digits acc digits < 2 ^ 64
    → parse_row acc digits ≡ some (read_digits acc digits)
unfolding parse_row
parse_row-digits acc [] h b = refl
parse_row-digits acc (d ∷ digits) h b =
    let digit : (ltb d 48 || ltb 57 d) ≡ false = ground (arith, h.0) in
    let grows = read_digits_grows (acc * 10 + (d - 48)) digits in
    let small : (acc * 10 + (d - 48)) % 2 ^ 64 ≡ acc * 10 + (d - 48) = omega (arith, grows, b) in
    rw (digit, small) (parse_row-digits (acc * 10 + (d - 48)) digits h.1 b)

cut-digits :
    (digits rest : List ℕ) → All IsDigit digits → cut 59 (digits ++ 59 ∷ rest) ≡ some digits
unfolding cut
cut-digits [] rest h = refl
cut-digits (d ∷ digits) rest h =
    let other : (d == 59) ≡ false = ground (arith, h.0) in
    rw (other, cut, cut-digits digits rest h.1) refl

abbrev Without : ℕ → List ℕ → Type 0
Without b bytes = All (λ c. (c == b) ≡ false) bytes

after_last-none : (b : ℕ) (bytes : List ℕ) → Without b bytes → after_last b bytes ≡ none
unfolding after_last
after_last-none b [] h = refl
after_last-none b (c ∷ cs) h = rw (after_last-none b cs h.1, after_last, h.0) refl

-- What stands before the last `[` does not matter.
after_last-append :
    (b : ℕ) (before rest : List ℕ)
    → Without b rest
    → (b == b) ≡ true
    → after_last b (before ++ b ∷ rest) ≡ some rest
unfolding after_last
after_last-append b [] rest h same = rw (after_last-none b rest h, after_last, same) refl
after_last-append b (c ∷ before) rest h same =
    rw (after_last-append b before rest h same, after_last) refl

digit-Without : (b : ℕ) (digits : List ℕ) → 57 < b → All IsDigit digits → Without b digits
digit-Without b [] high h = tt
digit-Without b (d ∷ digits) high h = (ground (arith, h.0), digit-Without b digits high h.1)

Without-append : (b : ℕ) (xs ys : List ℕ) → Without b xs → Without b ys → Without b (xs ++ ys)
Without-append b [] ys hx hy = hy
Without-append b (x ∷ xs) ys hx hy = (hx.0, Without-append b xs ys hx.1 hy)

-- The report of a terminal: ESC [ row ; column R.
abbrev pub report : ℕ → ℕ → Text
report row col = csi (decimal row ++ 59 ∷ (decimal col ++ 82 ∷ []))

last_byte-append : (xs : List ℕ) (b : ℕ) → last_byte (xs ++ b ∷ []) ≡ b
unfolding last_byte
last_byte-append [] b = refl
last_byte-append (x ∷ []) b = refl
last_byte-append (x ∷ y ∷ ys) b = last_byte-append (y ∷ ys) b

last_byte-later :
    (xs : List ℕ) (y : ℕ) (ys : List ℕ) → last_byte (xs ++ y ∷ ys) ≡ last_byte (y ∷ ys)
unfolding last_byte
last_byte-later [] y ys = refl
last_byte-later (x ∷ []) y ys = refl
last_byte-later (x ∷ z ∷ xs) y ys = last_byte-later (z ∷ xs) y ys

last_byte-report : (before : List ℕ) (row col : ℕ) → last_byte (before ++ report row col) ≡ 82
unfolding last_byte
last_byte-report before row col =
    last_byte-later before 27 (91 ∷ (decimal row ++ 59 ∷ (decimal col ++ 82 ∷ [])))
    ∙ (last_byte-later (27 ∷ 91 ∷ decimal row) 59 (decimal col ++ 82 ∷ [])
        ∙ last_byte-later (59 ∷ decimal col) 82 [])

take-all : (n : ℕ) (xs : List ℕ) → length xs ≤ n → take n xs ≡ xs
take-all zero [] h = refl
take-all zero (x ∷ xs) h = absurd (omega arith)
take-all (suc n) [] h = refl
take-all (suc n) (x ∷ xs) h = ap (λ rest. x ∷ rest) (take-all n xs (omega arith))

read_response-report :
    (bytes : List ℕ) (reads : List (List ℕ))
    → length bytes ≤ 32
    → last_byte bytes ≡ 82
    → read_response [] (bytes ∷ reads) ≡ bytes
unfolding read_response
read_response-report bytes reads h e = rw (take-all 32 bytes h, e) refl

numbers-Without : (row col : ℕ) → Without 91 (decimal row ++ 59 ∷ (decimal col ++ 82 ∷ []))
numbers-Without row col =
    Without-append 91 (decimal row) (59 ∷ (decimal col ++ 82 ∷ []))
      (digit-Without 91 (decimal row) (omega arith) (decimal-All row))
      (
        refl,
        Without-append 91 (decimal col) (82 ∷ [])
            (digit-Without 91 (decimal col) (omega arith) (decimal-All col)) (refl, tt),
      )

after_report :
    (before : List ℕ) (row col : ℕ)
    → after_last 91 (before ++ report row col) ≡ some (decimal row ++ 59 ∷ (decimal col ++ 82 ∷ []))
after_report before row col =
    subst (λ bs. after_last 91 bs ≡ some (decimal row ++ 59 ∷ (decimal col ++ 82 ∷ [])))
      (append_assoc before (27 ∷ []) (91 ∷ (decimal row ++ 59 ∷ (decimal col ++ 82 ∷ []))))
      (after_last-append 91 (before ++ 27 ∷ []) (decimal row ++ 59 ∷ (decimal col ++ 82 ∷ []))
        (numbers-Without row col) refl)

parse_row-decimal : (row : ℕ) → row < 2 ^ 64 → parse_row 0 (decimal row) ≡ some row
parse_row-decimal row h =
    let same = read_digits-decimal row in
    parse_row-digits 0 (decimal row) (decimal-All row) (omega (arith, same)) ∙ ap some same

cursor_row_of-report :
    (fallback : ℕ) (before : List ℕ) (row col : ℕ)
    → 0 < row
    → row < 2 ^ 63
    → cursor_row_of fallback (before ++ report row col) ≡ row
unfolding cursor_row_of
cursor_row_of-report fallback before row col low high =
    let positive : (row == 0 || leb (2 ^ 63) row) ≡ false = ground arith in
    ap (row_in fallback) (after_report before row col)
    ∙ (ap (row_before fallback)
          (cut-digits (decimal row) (decimal col ++ 82 ∷ []) (decimal-All row))
        ∙ (ap (positive_or fallback) (parse_row-decimal row (omega arith))
            ∙ ap (λ b. if b then fallback else row) positive))

-- The row that a terminal reports is read from a report of at most 32 bytes that comes in one read,
-- whatever other responses stand before it, if it is a positive int.
pub read_cursor_row-report :
    (fallback : ℕ) (before : List ℕ) (row col : ℕ) (reads : List (List ℕ))
    → 0 < row
    → row < 2 ^ 63
    → length (before ++ report row col) ≤ 32
    → read_cursor_row fallback ((before ++ report row col) ∷ reads) ≡ row
unfolding read_cursor_row
read_cursor_row-report fallback before row col reads low high short =
    ap (cursor_row_of fallback) (
      read_response-report (before ++ report row col) reads short (last_byte-report before row col))
    ∙ cursor_row_of-report fallback before row col low high
