-- ===== src/NfcDevice/Opening/Constructing.antt =====
-- How the constructor of `class NfcDevice` (src/nfc_driver.cpp) ends, for the context and the count that
-- the devices share.
use programme_bee_gadz.Common.{
  suc, ◌==◌, ◌<◌, ◌≡◌, refl, sym, ap, ◌∙◌, false, Option, none, some, List, [], ◌∷◌, arith, Result,
  ok, threw, Action, ◌>>=◌, ◌>>◌, length, codes, is_negative, Bool-cases, Option-cases, inl, inr,
}
use programme_bee_gadz.NfcDevice.Opening.{
  Opener, Driver, debug, is_null, need_context, open_in, start, new_device,
}

module _ {W X D : Type 0} (nfc : Opener W X D) where
  start-count :
      (o : Option D) (s s' : Driver W X) (d : D)
      → start nfc o s ≡ (ok d, s')
      → (s'.instances ≡ suc s.instances) × (s'.context ≡ s.context)
  unfolding start
  start-count none s s' d e = (let never = ap (λ (r : Result D × Driver W X). r.0) e in cc)
  start-count (some x) s s' d e = elim (Bool-cases (is_negative (nfc.initiator_init x s.world).0)) [
    | inl bad ↦ (let never = ap (λ (r : Result D × Driver W X). r.0) (rw bad at e) in cc)
    | inr good ↦ (
      ap (λ (r : Result D × Driver W X). r.1.instances) (sym (rw good at e)),
      ap (λ (r : Result D × Driver W X). r.1.context) (sym (rw good at e)),
    )
  ]

  start-keeps :
      (o : Option D) (s s' : Driver W X)
      → start nfc o s ≡ (threw, s')
      → (s'.instances ≡ s.instances) × (s'.context ≡ s.context)
  unfolding start
  start-keeps none s s' e = (
    ap (λ (r : Result D × Driver W X). r.1.instances) (sym e),
    ap (λ (r : Result D × Driver W X). r.1.context) (sym e),
  )
  start-keeps (some x) s s' e = elim (Bool-cases (is_negative (nfc.initiator_init x s.world).0)) [
    | inl bad ↦ (
      ap (λ (r : Result D × Driver W X). r.1.instances) (sym (rw bad at e)),
      ap (λ (r : Result D × Driver W X). r.1.context) (sym (rw bad at e)),
    )
    | inr good ↦ (let never = ap (λ (r : Result D × Driver W X). r.0) (rw good at e) in cc)
  ]

  -- Once a context is at hand, the constructor goes on to the device.
  pub new_device_ready :
      (s : Driver W X) {x : X}
      → s.context ≡ some x
      → new_device nfc s
        ≡ (debug nfc.version
              >> (debug (codes "Openning device") >> (open_in nfc (some x) >>= start nfc)))
            s
  unfolding new_device need_context
  new_device_ready s {x} e = elim (Bool-cases (s.instances == 0)) [
    | inl first ↦ rw (first, e) refl
    | inr more ↦ rw (more, e) refl
  ]

  -- The count is right, and there is a context while a device is alive.
  pub record IsCounted (s : Driver W X) (alive : List D) : Type 0 where
    pub count : s.instances ≡ length alive
    pub context : 0 < length alive → is_null s.context ≡ false

  -- The state has the count and the context of another.
  same-IsCounted :
      (s s' : Driver W X) (alive : List D)
      → s'.instances ≡ s.instances
      → s'.context ≡ s.context
      → IsCounted s alive
      → IsCounted s' alive
  same-IsCounted s s' alive count context v = record {
    count = count ∙ v.count;
    context = λ some_alive. ap is_null context ∙ v.context some_alive;
  }

  -- The end of the constructor, on a context that is there.
  abbrev pub opened : X → Action (Driver W X) D
  opened x =
      debug nfc.version >> (debug (codes "Openning device") >> (open_in nfc (some x) >>= start nfc))

  opened-count :
      (x : X) (s s' : Driver W X) (d : D)
      → opened x s ≡ (ok d, s')
      → (s'.instances ≡ suc s.instances) × (s'.context ≡ s.context)
  unfolding start
  opened-count x s s' d e = start-count (nfc.open_device x s.world).0 _ s' d (unfold start in e)

  opened-keeps :
      (x : X) (s s' : Driver W X)
      → opened x s ≡ (threw, s')
      → (s'.instances ≡ s.instances) × (s'.context ≡ s.context)
  opened-keeps x s s' e = start-keeps (nfc.open_device x s.world).0 _ s' e

  -- The first device: the context is made.
  initialised : Driver W X → Driver W X
  initialised s = record s {
    context = (nfc.init s.world).0;
    world = (nfc.init s.world).1;
    printer = (debug (codes "Initializing context") s).1.printer;
  }

  new_device_first :
      (s : Driver W X) {x : X}
      → s.context ≡ none
      → s.instances ≡ 0
      → (nfc.init s.world).0 ≡ some x
      → new_device nfc s ≡ opened x (initialised s)
  unfolding new_device need_context initialised
  new_device_first s {x} e zero_yet made = rw (zero_yet, e, made) refl

  new_device_lost :
      (s : Driver W X)
      → s.context ≡ none
      → s.instances ≡ 0
      → (nfc.init s.world).0 ≡ none
      → ((new_device nfc s).0 ≡ threw)
        × ((new_device nfc s).1.instances ≡ s.instances)
        × ((new_device nfc s).1.context ≡ none)
  unfolding new_device need_context
  new_device_lost s e zero_yet failed = rw (zero_yet, e, failed) (refl, refl, refl)

  none_alive :
      (s : Driver W X) (alive : List D) → IsCounted s alive → s.context ≡ none → s.instances ≡ 0
  none_alive s [] v missing = v.count
  none_alive s (d ∷ alive) v missing = (let never = rw missing at (v.context (omega arith)) in cc)

  -- How the constructor ends, from a state that is counted.
  pub new_device-made :
      (s s' : Driver W X) (d : D) (alive : List D)
      → IsCounted s alive
      → new_device nfc s ≡ (ok d, s')
      → IsCounted s' (d ∷ alive)
  unfolding initialised
  new_device-made s s' d alive v e = elim (Option-cases s.context) [
    | inr (x, there) ↦
        let (count, context) = opened-count x s s' d (sym (new_device_ready s there) ∙ e) in
        record { count = count ∙ ap suc v.count; context = λ more. ap is_null (context ∙ there) }
    | inl missing ↦ elim (Option-cases (nfc.init s.world).0) [
      | inr (x, made) ↦
          let (count, context) =
            opened-count x (initialised s) s' d
              (sym (new_device_first s missing (none_alive s alive v missing) made) ∙ e) in
          record { count = count ∙ ap suc v.count; context = λ more. ap is_null (context ∙ made) }
      | inl failed ↦
          (let never =
              sym (new_device_lost s missing (none_alive s alive v missing) failed).0
              ∙ ap (λ (r : Result D × Driver W X). r.0) e in
            cc)
    ]
  ]

  pub new_device-refused :
      (s s' : Driver W X) (alive : List D)
      → IsCounted s alive
      → new_device nfc s ≡ (threw, s')
      → IsCounted s' alive
  unfolding initialised
  new_device-refused s s' alive v e = elim (Option-cases s.context) [
    | inr (x, there) ↦
        let (count, context) = opened-keeps x s s' (sym (new_device_ready s there) ∙ e) in
        same-IsCounted s s' alive count context v
    | inl missing ↦ elim (Option-cases (nfc.init s.world).0) [
      | inr (x, made) ↦
          let (count, context) =
            opened-keeps x (initialised s) s'
              (sym (new_device_first s missing (none_alive s alive v missing) made) ∙ e) in
          record { count = count ∙ v.count; context = λ more. ap is_null (context ∙ made) }
      | inl failed ↦
          let (ends, count, context) =
            new_device_lost s missing (none_alive s alive v missing) failed in
          let state = ap (λ (r : Result D × Driver W X). r.1) (sym e) in
          same-IsCounted s s' alive (ap (λ (t : Driver W X). t.instances) state ∙ count)
            (ap (λ (t : Driver W X). t.context) state ∙ context ∙ sym missing) v
    ]
  ]
