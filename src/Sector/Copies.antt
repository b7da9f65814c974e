-- ===== src/Sector/Copies.antt =====
-- The loops that copy six bytes of a key (src/sector.cpp), forwards and from the end.
use programme_bee_gadz.Common.{
  ℕ, zero, suc, ◌+◌, ◌-◌, ◌≤◌, ◌<◌, ◌≡◌, refl, ◌∙◌, sym, List, arith, get_or, get_or_ext,
  get_or_past, set, length, for_below, length-set, get_or-set_self, get_or-set_ne,
}
use native.Mathlib.Decide.{dec_lt}

-- `for (i = 0; i < n; ++i) bytes[i] = key[i]`
module _ (key bytes : List ℕ) where
  pub length-copy :
      (n : ℕ) → length (for_below n (λ i t. set t i (get_or key i 0)) bytes) ≡ length bytes
  length-copy zero = refl
  length-copy (suc n) = length-set _ n (get_or key n 0) ∙ length-copy n

  pub copy_low :
      (n i : ℕ)
      → n ≤ length bytes
      → i < n
      → get_or (for_below n (λ i t. set t i (get_or key i 0)) bytes) i 0 ≡ get_or key i 0
  copy_low zero i fits h = absurd (omega arith)
  copy_low (suc n) i fits h =
      grind (arith, get_or-set_self, get_or-set_ne, copy_low n i, length-copy n)

  pub copy_high :
      (n i : ℕ)
      → n ≤ i
      → get_or (for_below n (λ i t. set t i (get_or key i 0)) bytes) i 0 ≡ get_or bytes i 0
  copy_high zero i h = refl
  copy_high (suc n) i h = grind (arith, get_or-set_ne, copy_high n i)

  pub copied_key :
      length bytes ≡ 6 → length key ≡ 6 → for_below 6 (λ i t. set t i (get_or key i 0)) bytes ≡ key
  copied_key whole six = get_or_ext 0 _ key (length-copy 6 ∙ whole ∙ sym six) (λ i.
      elim (dec_lt i 6) [
        | yes h ↦ copy_low 6 i (omega arith) h
        | no h ↦
            copy_high 6 i (omega arith)
            ∙ get_or_past bytes i 0 (omega arith)
            ∙ sym (get_or_past key i 0 (omega arith))
      ])

-- `for (i = 0; i < n; ++i) bytes[size - 1 - i] = key[5 - i]`
module _ (key bytes : List ℕ) (size_is : ℕ) where
  unfoldable pub copy_back : ℕ → List ℕ
  copy_back n = for_below n (λ i t. set t (size_is - 1 - i) (get_or key (5 - i) 0)) bytes

  pub length-copy_back : (n : ℕ) → length (copy_back n) ≡ length bytes
  unfolding copy_back
  length-copy_back zero = refl
  length-copy_back (suc n) =
      length-set (copy_back n) (size_is - 1 - n) (get_or key (5 - n) 0) ∙ length-copy_back n

  pub back_high :
      (n i : ℕ)
      → size_is ≡ length bytes
      → 6 ≤ size_is
      → n ≤ 6
      → size_is ≤ i + n
      → i < size_is
      → get_or (copy_back n) i 0 ≡ get_or key (i + 6 - size_is) 0
  unfolding copy_back
  back_high zero i e big few lo hi = absurd (omega arith)
  back_high (suc n) i e big few lo hi = elim (dec_lt (size_is - 1 - n) i) [
    | yes later ↦
        get_or-set_ne (copy_back n) (size_is - 1 - n) i _ 0 (omega arith)
        ∙ back_high n i e big (omega arith) (omega arith) hi
    | no here ↦
        let at : i ≡ size_is - 1 - n = omega arith in
        let from : i + 6 - size_is ≡ 5 - n = omega arith in
        rw (from, at)
          (get_or-set_self (copy_back n) (size_is - 1 - n) _ 0 (omega (arith, length-copy_back n)))
  ]

  pub back_low :
      (n i : ℕ) → n ≤ size_is → i + n < size_is → get_or (copy_back n) i 0 ≡ get_or bytes i 0
  unfolding copy_back
  back_low zero i few h = refl
  back_low (suc n) i few h =
      get_or-set_ne (copy_back n) (size_is - 1 - n) i _ 0 (omega arith)
      ∙ back_low n i (omega arith) (omega arith)
