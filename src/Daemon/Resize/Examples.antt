-- ===== src/Daemon/Resize/Examples.antt =====
-- The policies on the sizes of two clients.
use hauntty.Prelude.{◌≡◌, refl, [], ◌∷◌, some, false, text_eq, codes, arith, All}
use hauntty.Daemon.Resize.{
  TermSize, full_size, apply_resize_policy, resize_policy_largest, resize_policy_smallest,
  resize_policy_first,
}
use hauntty.Daemon.Resize.Policy.{Within, apply_resize_policy-smallest}

abbrev wide : TermSize
wide = record { cols = 120; rows = 20; xpixel = 0; ypixel = 0 }

abbrev tall : TermSize
tall = record { cols = 80; rows = 50; xpixel = 0; ypixel = 0 }

smallest-IsDefault :
    (text_eq resize_policy_smallest resize_policy_largest ≡ false)
    × (text_eq resize_policy_smallest (codes "last") ≡ false)
    × (text_eq resize_policy_smallest resize_policy_first ≡ false)
unfolding text_eq
smallest-IsDefault = (refl, refl, refl)

apply_resize_policy-smallest_example :
    (size : TermSize) × (apply_resize_policy resize_policy_smallest (wide ∷ tall ∷ []) ≡ some size)
    × All (Within size) (wide ∷ tall ∷ [])
    × ((low : TermSize)
        → Within low full_size
        → All (Within low) (wide ∷ tall ∷ [])
        → Within low size)
apply_resize_policy-smallest_example =
    apply_resize_policy-smallest resize_policy_smallest (wide ∷ tall ∷ []) smallest-IsDefault
      (omega arith)
