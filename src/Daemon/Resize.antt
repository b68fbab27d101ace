-- ===== src/Daemon/Resize.antt =====
-- termSize and the packed size of internal/daemon/session.go, the policies of
-- internal/config/config.go, and applyResizePolicy of internal/daemon/session_clients.go.
pub mod Policy
mod Examples
use hauntty.Prelude.{
  ℕ, ◌+◌, ◌*◌, ◌/◌, ◌%◌, ◌^◌, min, max, Bool, ◌||◌, List, [], ◌∷◌, Option, none, some, Text, codes,
  text_eq, if◌then◌else◌,
}

pub record TermSize : Type 0 where
  pub cols : ℕ
  pub rows : ℕ
  pub xpixel : ℕ
  pub ypixel : ℕ

-- A `ResizePolicy` is a string; these are its constants.
abbrev pub resize_policy_smallest : Text
resize_policy_smallest = codes "smallest"

abbrev pub resize_policy_largest : Text
resize_policy_largest = codes "largest"

abbrev pub resize_policy_first : Text
resize_policy_first = codes "first"

abbrev pub resize_policy_last : Text
resize_policy_last = codes "last"

-- `Config.validate` of internal/config/config.go: the policies that a configuration may name.
unfoldable pub validate : Text → Bool
validate policy =
    text_eq policy resize_policy_smallest
    || text_eq policy resize_policy_largest
    || text_eq policy resize_policy_first
    || text_eq policy resize_policy_last

abbrev pub zero_size : TermSize
zero_size = record { cols = 0; rows = 0; xpixel = 0; ypixel = 0 }

-- math.MaxUint16 everywhere.
abbrev pub full_size : TermSize
full_size = record { cols = 65535; rows = 65535; xpixel = 65535; ypixel = 65535 }

abbrev pub join : TermSize → TermSize → TermSize
join a b = record {
  cols = max a.cols b.cols;
  rows = max a.rows b.rows;
  xpixel = max a.xpixel b.xpixel;
  ypixel = max a.ypixel b.ypixel;
}

abbrev pub meet : TermSize → TermSize → TermSize
meet a b = record {
  cols = min a.cols b.cols;
  rows = min a.rows b.rows;
  xpixel = min a.xpixel b.xpixel;
  ypixel = min a.ypixel b.ypixel;
}

unfoldable pub largest : TermSize → List TermSize → TermSize
largest size [] = size
largest size (candidate ∷ rest) = largest (join size candidate) rest

unfoldable pub smallest : TermSize → List TermSize → TermSize
smallest size [] = size
smallest size (candidate ∷ rest) = smallest (meet size candidate) rest

-- `sizes[0]` and `sizes[len(sizes)-1]`; `none` is the panic on an empty slice.
abbrev pub first_size : List TermSize → Option TermSize
first_size [] = none
first_size (size ∷ rest) = some size

abbrev pub last_size : List TermSize → Option TermSize
last_size [] = none
last_size (size ∷ []) = some size
last_size (size ∷ next ∷ rest) = last_size (next ∷ rest)

unfoldable pub apply_resize_policy : Text → List TermSize → Option TermSize
apply_resize_policy policy sizes =
    if text_eq policy resize_policy_largest
    then some (largest zero_size sizes)
    else if text_eq policy resize_policy_last
    then last_size sizes
    else if text_eq policy resize_policy_first
    then first_size sizes
    else some (smallest full_size sizes)

-- `sizeVal` holds cols<<16 | rows; a shifted word and a 16-bit one share no bits.
unfoldable pub pack_size : ℕ → ℕ → ℕ
pack_size cols rows = cols * 2 ^ 16 + rows

unfoldable pub unpack_size : ℕ → ℕ × ℕ
unpack_size v = (v / 2 ^ 16 % 2 ^ 16, v % 2 ^ 16)
