-- ===== src/NfcDevice/Opening.antt =====
-- The constructor and the destructor of `class NfcDevice` (src/nfc_driver.cpp): the context of libnfc,
-- which all devices share, and the count of the devices.
pub mod Constructing
pub mod Counting
use programme_bee_gadz.Common.{
  ℕ, suc, ◌+◌, ◌-◌, ◌==◌, Bool, true, false, Option, none, some, List, ◌++◌, Action, ok, ◌>>=◌,
  ◌>>◌, pure, throw, gets, modify, in_range, codes, is_negative, if◌then◌else◌, ℤ,
}
use programme_bee_gadz.Printer.{Printer, print_debug, print_error}
use programme_bee_gadz.NfcDevice.{Env}

-- The calls of libnfc that open and close a reader, over the type `W` of the states of the library and
-- the bus, `X` of contexts, and `D` of open devices.
pub record Opener (W X D : Type 0) : Type 0 where
  -- `nfc_init`; `none` is a context that is still null
  pub init : W → Option X × W
  -- `nfc_version`
  pub version : List ℕ
  -- `nfc_open(context, nullptr)`; `none` is the null pointer
  pub open_device : X → W → Option D × W
  -- `nfc_initiator_init`, `nfc_device_get_name`
  pub initiator_init : D → W → ℤ × W
  pub device_name : D → List ℕ
  -- `nfc_close`, `nfc_exit`
  pub close : D → W → W
  pub exit : X → W → W

-- The members that all devices share, the library, and the printer.
pub record Driver (W X : Type 0) : Type 0 where
  -- `m_context`
  pub context : Option X
  -- `m_instances`
  pub instances : ℕ
  pub world : W
  pub printer : Printer

module _ {W X : Type 0} where
  abbrev pub debug : List ℕ → Action (Driver W X) (Unit {0})
  debug m = modify λ s. record s { printer = print_debug m s.printer }

  abbrev pub error : List ℕ → Action (Driver W X) (Unit {0})
  error m = modify λ s. record s { printer = print_error m s.printer }

abbrev pub is_null : {A : Type 0} → Option A → Bool
is_null none = true
is_null (some x) = false

module _ {W X D : Type 0} (nfc : Opener W X D) where
  -- `nfc_init(&m_context)`
  abbrev pub call_init : Action (Driver W X) (Unit {0})
  call_init = modify λ s. (let (x, w) = nfc.init s.world in record s { context = x; world = w })

  -- `if (!m_instances && !m_context)`, and the exception if there is no context then
  unfoldable pub need_context : Action (Driver W X) (Unit {0})
  need_context = do
    s ← gets (λ s. s)
    if s.instances == 0
        then (if is_null s.context
            then (debug (codes "Initializing context")
                >> (call_init
                    >> (gets (λ s. is_null s.context) >>= λ failed.
                        (if failed
                          then (error (codes "Error initialising the context for NFC") >> throw)
                          else pure tt))))
            else pure tt)
        else pure tt

  -- `nfc_open(m_context, nullptr)`; a null context is a fault
  abbrev pub open_in : Option X → Action (Driver W X) (Option D)
  open_in o = do
    x ← in_range o
    w ← gets (λ s. s.world)
    let (d, w') = nfc.open_device x w
    modify (λ s. record s { world = w' })
    pure d

  -- `nfc_initiator_init(m_device)`
  abbrev pub call_initiator_init : D → Action (Driver W X) ℤ
  call_initiator_init d s =
      let (res, w) = nfc.initiator_init d s.world in (ok res, record s { world = w })

  -- From the opening of the device on
  unfoldable pub start : Option D → Action (Driver W X) D
  start none = error (codes "Error, unable to open NFC device") >> throw
  start (some d) = do
    debug (codes "Initializing device")
    res ← call_initiator_init d
    if is_negative res
        then (error (codes "Error while initializing device") >> throw)
        else (debug (codes "Device name : " ++ nfc.device_name d)
            >> (modify (λ s. record s { instances = suc s.instances }) >> pure d))

  -- `NfcDevice::NfcDevice`
  unfoldable pub new_device : Action (Driver W X) D
  new_device = do
    need_context
    debug nfc.version
    debug (codes "Openning device")
    x ← gets (λ s. s.context)
    d ← open_in x
    start d

  -- `nfc_exit(m_context)`; a null context is a fault
  abbrev pub call_exit : Option X → Action (Driver W X) (Unit {0})
  call_exit o = do x ← in_range o; modify (λ s. record s { world = nfc.exit x s.world })

  -- `NfcDevice::~NfcDevice`, of a device that was constructed
  unfoldable pub delete_device : D → Action (Driver W X) (Unit {0})
  delete_device d = do
    modify (λ s. record s { instances = s.instances - 1 })
    modify (λ s. record s { world = nfc.close d s.world })
    s ← gets (λ s. s)
    if s.instances == 0 then call_exit s.context else pure tt
