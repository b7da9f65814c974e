-- ===== src/Card.antt =====
-- `class Card` (include/card.h, src/card.cpp), and `NfcDevice::findCard(keys, infinite)`
-- (src/nfc_driver.cpp): a card's copy in memory, and the commands that fetch and store its blocks.
-- A read past the end of the sectors or of the keys is a `fault`.
pub mod Layout
pub mod State
pub mod Commands
pub mod Sectors
pub mod Authenticate
pub mod Results
pub mod Contents
pub mod Data
pub mod RoundTrip
pub mod Tag
