-- ===== src/Daemon/Resize/Policy.antt =====
-- What each policy gives for the sizes of the attached clients.
use hauntty.Prelude.{
  subst, Option, none, ℕ, ◌^◌, ◌≤◌, ◌<◌, ◌≡◌, refl, inl, inr, List, [], ◌∷◌, some, Text, text_eq,
  arith, All, false, Bool-cases,
}
use hauntty.Daemon.Resize.{
  TermSize, zero_size, full_size, join, meet, largest, smallest, first_size, last_size,
  apply_resize_policy, pack_size, unpack_size, resize_policy_largest, resize_policy_first,
  resize_policy_last,
}

-- One size is within another in each of the four fields.
pub record Within (a b : TermSize) : Type 0 where
  pub cols : a.cols ≤ b.cols
  pub rows : a.rows ≤ b.rows
  pub xpixel : a.xpixel ≤ b.xpixel
  pub ypixel : a.ypixel ≤ b.ypixel

smallest-le : (size : TermSize) (sizes : List TermSize) → Within (smallest size sizes) size
unfolding smallest
smallest-le size [] = omega arith
smallest-le size (c ∷ rest) = omega (arith, smallest-le (meet size c) rest)

smallest-Within :
    (size : TermSize) (sizes : List TermSize) → All (λ c. Within (smallest size sizes) c) sizes
unfolding smallest
smallest-Within size [] = tt
smallest-Within size (c ∷ rest) =
    (omega (arith, smallest-le (meet size c) rest), smallest-Within (meet size c) rest)

smallest-greatest :
    (low size : TermSize) (sizes : List TermSize)
    → Within low size
    → All (Within low) sizes
    → Within low (smallest size sizes)
unfolding smallest
smallest-greatest low size [] h a = h
smallest-greatest low size (c ∷ rest) h a =
    smallest-greatest low (meet size c) rest (omega (arith, a.0)) a.1

largest-ge : (size : TermSize) (sizes : List TermSize) → Within size (largest size sizes)
unfolding largest
largest-ge size [] = omega arith
largest-ge size (c ∷ rest) = omega (arith, largest-ge (join size c) rest)

largest-Within :
    (size : TermSize) (sizes : List TermSize) → All (λ c. Within c (largest size sizes)) sizes
unfolding largest
largest-Within size [] = tt
largest-Within size (c ∷ rest) =
    (omega (arith, largest-ge (join size c) rest), largest-Within (join size c) rest)

largest-least :
    (high size : TermSize) (sizes : List TermSize)
    → Within size high
    → All (λ c. Within c high) sizes
    → Within (largest size sizes) high
unfolding largest
largest-least high size [] h a = h
largest-least high size (c ∷ rest) h a =
    largest-least high (join size c) rest (omega (arith, a.0)) a.1

-- The policy names none of the four constants but "smallest", or any name that is not one of them.
abbrev pub IsDefault : Text → Type 0
IsDefault policy =
    (text_eq policy resize_policy_largest ≡ false)
    × (text_eq policy resize_policy_last ≡ false)
    × (text_eq policy resize_policy_first ≡ false)

-- Under "smallest", and under any name that is not a policy, the size is the greatest one that fits
-- within every client's size, field by field.
pub apply_resize_policy-smallest :
    (policy : Text) (sizes : List TermSize)
    → IsDefault policy
    → All (λ c. Within c full_size) sizes
    → (size : TermSize) × (apply_resize_policy policy sizes ≡ some size)
      × All (Within size) sizes
      × ((low : TermSize) → Within low full_size → All (Within low) sizes → Within low size)
unfolding apply_resize_policy
apply_resize_policy-smallest policy sizes (l, z, f) w = (
  smallest full_size sizes,
  rw (l, z, f),
  smallest-Within full_size sizes,
  λ low h a. smallest-greatest low full_size sizes h a,
)

-- Under "largest" the size is the least one that every client's size fits within, field by field.
pub apply_resize_policy-largest :
    (sizes : List TermSize)
    → (size : TermSize) × (apply_resize_policy resize_policy_largest sizes ≡ some size)
      × All (λ c. Within c size) sizes
      × ((high : TermSize) → All (λ c. Within c high) sizes → Within size high)
unfolding apply_resize_policy text_eq
apply_resize_policy-largest sizes = (
  largest zero_size sizes,
  refl,
  largest-Within zero_size sizes,
  λ high a. largest-least high zero_size sizes (omega arith) a,
)

last_size-some :
    (size : TermSize) (sizes : List TermSize)
    → (last : TermSize) × (last_size (size ∷ sizes) ≡ some last)
last_size-some size [] = (size, refl)
last_size-some size (next ∷ rest) = last_size-some next rest

-- With at least one size no policy indexes out of range.
pub apply_resize_policy-some :
    (policy : Text) (size : TermSize) (sizes : List TermSize)
    → (target : TermSize) × (apply_resize_policy policy (size ∷ sizes) ≡ some target)
unfolding apply_resize_policy
apply_resize_policy-some policy size sizes =
    let last = last_size-some size sizes in
    elim (Bool-cases (text_eq policy resize_policy_largest)) [
      | inl l ↦ (largest zero_size (size ∷ sizes), rw l)
      | inr l ↦ elim (Bool-cases (text_eq policy resize_policy_last)) [
        | inl z ↦ (last.0, rw (l, z) last.1)
        | inr z ↦ elim (Bool-cases (text_eq policy resize_policy_first)) [
          | inl f ↦ (size, rw (l, z, f))
          | inr f ↦ (smallest full_size (size ∷ sizes), rw (l, z, f))
        ]
      ]
    ]

abbrev Bounded : Option TermSize → Type 0
Bounded none = Unit {0}
Bounded (some t) = Within t full_size

last_size-Bounded :
    (sizes : List TermSize) → All (λ c. Within c full_size) sizes → Bounded (last_size sizes)
last_size-Bounded [] w = tt
last_size-Bounded (size ∷ []) w = w.0
last_size-Bounded (size ∷ next ∷ rest) w = last_size-Bounded (next ∷ rest) w.1

first_size-Bounded :
    (sizes : List TermSize) → All (λ c. Within c full_size) sizes → Bounded (first_size sizes)
first_size-Bounded [] w = tt
first_size-Bounded (size ∷ rest) w = w.0

policy-Bounded :
    (policy : Text) (sizes : List TermSize)
    → All (λ c. Within c full_size) sizes
    → Bounded (apply_resize_policy policy sizes)
unfolding apply_resize_policy
policy-Bounded policy sizes w = elim (Bool-cases (text_eq policy resize_policy_largest)) [
  | inl l ↦ rw l (largest-least full_size zero_size sizes (omega arith) w)
  | inr l ↦ elim (Bool-cases (text_eq policy resize_policy_last)) [
    | inl z ↦ rw (l, z) (last_size-Bounded sizes w)
    | inr z ↦ elim (Bool-cases (text_eq policy resize_policy_first)) [
      | inl f ↦ rw (l, z, f) (first_size-Bounded sizes w)
      | inr f ↦ rw (l, z, f) (smallest-le full_size sizes)
    ]
  ]
]

-- No policy leaves the range of a uint16.
pub apply_resize_policy-Within :
    (policy : Text) (sizes : List TermSize) (t : TermSize)
    → All (λ c. Within c full_size) sizes
    → apply_resize_policy policy sizes ≡ some t
    → Within t full_size
apply_resize_policy-Within policy sizes t w e = subst Bounded e (policy-Bounded policy sizes w)

-- A size read from `sizeVal` is the size that was stored.
pub unpack_size-pack_size :
    (cols rows : ℕ)
    → cols < 2 ^ 16
    → rows < 2 ^ 16
    → unpack_size (pack_size cols rows) ≡ (cols, rows)
unfolding pack_size unpack_size
unpack_size-pack_size cols rows c r = ground arith
