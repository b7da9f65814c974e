-- ===== src/NfcDevice/Results.antt =====
-- How the calls on the reader end (src/nfc_driver.cpp).
use programme_bee_gadz.Common.{
  ℕ, ◌≡◌, inl, inr, Bool, true, false, List, ok, Bool-cases, is_negative, is_positive, take,
}
use programme_bee_gadz.Mifare.{Libnfc, Property}
use programme_bee_gadz.NfcDevice.{Env, same_bool, infinite_select, find_card_uid}

module _ {D : Type 0} (nfc : Libnfc D) where
  -- `infiniteSelect` always returns.
  pub infinite_select_returns :
      (infinite : Bool) (e : Env D) → (b : Bool) × ((infinite_select nfc infinite e).0 ≡ ok b)
  unfolding infinite_select
  infinite_select_returns infinite e = elim (Bool-cases (same_bool e.infinite infinite)) [
    | inl same ↦ (true, rw same)
    | inr other ↦
        elim (Bool-cases
          (is_negative (nfc.set_property_bool Property.infinite_select infinite e.device).0)) [
            | inl failed ↦ (false, rw (other, failed))
            | inr done ↦ (true, rw (other, done))
          ]
  ]

  -- `findCard(uid, len)` returns whether libnfc counts a target.
  pub find_card_uid_returns :
      (uid : List ℕ) (n : ℕ) (e : Env D) → (b : Bool) × ((find_card_uid nfc uid n e).0 ≡ ok b)
  unfolding find_card_uid
  find_card_uid_returns uid n e =
      let (b, selected) = infinite_select_returns false e in
      let e' = (infinite_select nfc false e).1 in
      (is_positive (nfc.select_passive_target (take n uid) e'.device).0, rw selected)
