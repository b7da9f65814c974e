-- ===== src/NfcDevice/Opening/Counting.antt =====
-- The devices that are constructed and destroyed one after the other (src/nfc_driver.cpp), against the
-- count that the class keeps of them.
use programme_bee_gadz.Common.{
  suc, ◌-◌, ◌==◌, ◌≡◌, refl, ap, ◌∙◌, none, List, [], ◌∷◌, ◌++◌, arith, ok, threw, length,
  Bool-cases, Option-cases, inl, inr,
}
use programme_bee_gadz.NfcDevice.Opening.{Opener, Driver, is_null, new_device, delete_device}
use programme_bee_gadz.NfcDevice.Opening.Constructing.{
  IsCounted, opened, new_device_ready, new_device-made, new_device-refused,
}

module _ {W X D : Type 0} (nfc : Opener W X D) where
  -- A device is constructed, the constructor throws, or a device that is alive is destroyed.
  pub data Use : Driver W X → List D → Driver W X → List D → Type 0 where
    constructed :
        (s s' : Driver W X) (d : D) (alive : List D)
        → new_device nfc s ≡ (ok d, s')
        → Use s alive s' (d ∷ alive)
    refused :
        (s s' : Driver W X) (alive : List D) → new_device nfc s ≡ (threw, s') → Use s alive s' alive
    destroyed :
        (s : Driver W X) (before after : List D) (d : D)
        → Use s (before ++ (d ∷ after)) (delete_device nfc d s).1 (before ++ after)

  -- What the program can reach from the start, where there is no context and no device.
  pub data Reachable : Driver W X → List D → Type 0 where
    started : (s : Driver W X) → s.context ≡ none → s.instances ≡ 0 → Reachable s []
    next :
        {s s' : Driver W X} {alive alive' : List D}
        → Reachable s alive
        → Use s alive s' alive'
        → Reachable s' alive'

  length-insert :
      (before after : List D) (d : D)
      → length (before ++ (d ∷ after)) ≡ suc (length (before ++ after))
  length-insert [] after d = refl
  length-insert (b ∷ before) after d = ap suc (length-insert before after d)

  delete_device-keeps :
      (s : Driver W X) (d : D)
      → ((delete_device nfc d s).1.instances ≡ s.instances - 1)
        × ((delete_device nfc d s).1.context ≡ s.context)
  unfolding delete_device
  delete_device-keeps s d = elim (Bool-cases (s.instances - 1 == 0)) [
    | inr more ↦ rw more (refl, refl)
    | inl last ↦ elim (Option-cases s.context) [
      | inl e ↦ rw (last, e) (refl, refl)
      | inr (x, e) ↦ rw (last, e) (refl, refl)
    ]
  ]

  pub delete_device-IsCounted :
      (s : Driver W X) (before after : List D) (d : D)
      → IsCounted nfc s (before ++ (d ∷ after))
      → IsCounted nfc (delete_device nfc d s).1 (before ++ after)
  delete_device-IsCounted s before after d v =
      let (count, context) = delete_device-keeps s d in
      let longer = length-insert before after d in
      record {
        count = count ∙ omega (arith, v.count);
        context = λ more. ap is_null context ∙ v.context (omega arith);
      }

  Use-IsCounted :
      {s s' : Driver W X} {alive alive' : List D}
      → Use s alive s' alive'
      → IsCounted nfc s alive
      → IsCounted nfc s' alive'
  Use-IsCounted (constructed s s' d alive e) v = new_device-made nfc s s' d alive v e
  Use-IsCounted (refused s s' alive e) v = new_device-refused nfc s s' alive v e
  Use-IsCounted (destroyed s before after d) v = delete_device-IsCounted s before after d v

-- Whatever devices are constructed and destroyed from the start on, also where constructors throw:
-- `m_instances` is the number of the devices that are alive, and there is a context while one is.
pub Reachable-IsCounted :
    {W X D : Type 0} (nfc : Opener W X D) {s : Driver W X} {alive : List D}
    → Reachable nfc s alive
    → IsCounted nfc s alive
Reachable-IsCounted nfc (started s e zero_yet) = record {
  count = zero_yet;
  context = λ more. (absurd (omega arith));
}
Reachable-IsCounted nfc (next r u) = Use-IsCounted nfc u (Reachable-IsCounted nfc r)

-- The last device that is alive is destroyed, and another is constructed: the destructor gives the
-- context to `nfc_exit` and keeps it, so the constructor does not make a new one, but opens the device
-- in the context that has been given up.
pub reopened_after_exit :
    {W X D : Type 0} (nfc : Opener W X D) {s : Driver W X} (d : D)
    → Reachable nfc s (d ∷ [])
    → (x : X) × ((delete_device nfc d s).1.world ≡ nfc.exit x (nfc.close d s.world))
      × (new_device nfc (delete_device nfc d s).1 ≡ opened nfc x (delete_device nfc d s).1)
unfolding delete_device
reopened_after_exit nfc {s} d r =
    let v = Reachable-IsCounted nfc r in
    let last : s.instances - 1 ≡ 0 = omega (arith, v.count) in
    elim (Option-cases s.context) [
      | inl missing ↦ (let never = rw missing at (v.context (omega arith)) in cc)
      | inr (x, there) ↦
          let kept = (delete_device-keeps nfc s d).1 in
          (x, rw (last, there) refl, new_device_ready nfc (delete_device nfc d s).1 (kept ∙ there))
    ]
