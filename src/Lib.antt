-- ===== src/Lib.antt =====
-- Verification of programmeBeeGadz: a payment terminal for a student bar, which reads and writes
-- MIFARE Classic cards through libnfc.
--
-- The program's parts, from the reader up: `src/mifare.c` frames one command and sends it;
-- `src/nfc_driver.cpp` finds cards and passes commands on; `src/card.cpp` authenticates, reads and
-- writes the blocks of a card, which it keeps as sectors (`src/sector.cpp`) of blocks
-- (`src/block.cpp`); the modes (`src/mode.cpp`, `src/bar.cpp` and others) use cards, and report
-- through `src/print_driver.cpp`; `src/application.cpp` runs one mode after another.
--
-- Common: the names that all modules share; Common/Effect has the actions: a call returns, throws,
--   or leaves defined behaviour (`fault`), and keeps what it wrote until then.
-- Block: `include/block.h`, `src/block.cpp`.
-- Sector: `include/sector.h`, `src/sector.cpp`; a function for each method. Sector/Flags has the
--   flags and tables, Sector/Shape the trailer, Sector/Access (over Sector/Access/Bits) the access
--   bits, Sector/Permissions the search for rights, Sector/Copies the loops that copy a key,
--   Sector/Keys the keys, the assignment and the check byte.
-- Printer: `include/print_driver.h`, `src/print_driver.cpp`; what is sent to the terminal and the LCD
--   is a list, latest first. Printer/Numerals: the numbers in messages; Printer/Text: bytes as text;
--   Printer/Terminal: the constructor and the input, over the terminal (`Terminal`).
-- Python: `include/python_driver.h`, `src/python_driver.cpp`; the interpreter is the record `Interpreter`.
-- Mifare: `include/mifare.h`, `src/mifare.c`; libnfc is the record `Libnfc`, a parameter.
-- NfcDevice: `include/nfc_driver.h`, `src/nfc_driver.cpp`; NfcDevice/Opening is the constructor and the
--   destructor, over the calls of libnfc that open a reader (`Opener`), NfcDevice/Opening/Constructing
--   is about how it ends, and NfcDevice/Opening/Counting follows the devices that are alive (a step
--   relation, `Use`).
-- Card: `include/card.h`, `src/card.cpp`: Card/State is the object, with its constructors and
--   assignment, Card/Layout the numbers of blocks, Card/Commands the commands on blocks,
--   Card/Sectors the operations on sectors and on the whole card.
--   Card/Contents shows what the commands keep of the copy in memory, Card/Data what `readData` and
--   `writeData` send, Card/RoundTrip the two with a tag (`IsTag`, what is relied on of libnfc).
--   Card/Authenticate is about `authenticate`, over Card/Authenticate/Steps, with
--   Card/Authenticate/Fuel about its end.
--   Card/Tag states what is relied on of a reader with a whole tag (`IsMifare`) and the relation of the
--   card in memory to the tag (`Stands`); below it, Opening, Fetching, Reading and Writing take one
--   block and one sector, Whole the whole card, Stored a sector that is written and read back, and
--   Fresh the card that is made of a tag that is found (`IsFound`).
-- Config: `include/config_driver.h`, `src/config_driver.cpp`; what jsoncpp reads of the file is given.
-- Mode: `include/mode.h`, `src/mode.cpp`. Mode/Members is the state that the modes share, the record
--   `Desk`, with the processor's floats (`FloatUnit`) and the calls from outside (`World`) as
--   parameters; Mode/Reader has the steps that the loops share; Mode/Memory and Mode/Kinds follow the
--   blocks of a card in memory, Mode/OnTag those on the tag (Mode/OnTag/Changing after a change
--   of a block), and Mode/Screen the lines of the screen and the LCD (Mode/Screen/Lcd).
--   Mode/Aside is about what a step leaves alone, and Mode/Laid about a card that is laid on the reader.
-- Bar, Caisse, Kve: `src/bar.cpp`, `src/caisse.cpp`, `src/kve.cpp` with their headers; a round of the
--   loop of each `run` is one function (Bar/Round, Caisse, Kve). Bar/Amounts is about the orders,
--   Bar/Invariant about them over a round, Bar/Invariant/Runs over the loop, Bar/Money,
--   Bar/Payment, Bar/OnTag (with Bar/OnTag/Again on the next reading), Caisse/Money, Caisse/OnTag and
--   Kve/Tickets about credit and tickets.
--   Whole rounds with a tag before the reader are in Bar/Visit, Caisse/Visit and Kve/Visit: Taking is a
--   round up to a card that has been read, Paying and Recharging what happens with it; Bar/Visit/Ordered
--   and Bar/Visit/Paid are a round with a CONSO and with a DEBIT card, and Bar/Visit/Both one after the
--   other, with a reader for each tag; Bar/Visit/Reading is the search for a card and the reading of
--   it, Bar/Visit/Dropping and Bar/Visit/Dropped a round that drops the orders; Bar/Visit/Seen and
--   Kve/Visit/Seen are a round with a known card, whatever key is pressed.
-- Admin: `include/admin.h`, `src/admin.cpp`; the nested menus are the states of one step. Admin/OnTag
--   is about the cards that are made and written, Admin/Tickets about the ticket of the configuration.
-- Mysql: `include/mysql_driver.h`, `src/mysql_driver.cpp`; the client library is the record `Client`.
--   Mysql/Links is about the connection, Mysql/Rows about the rows of a result.
-- Application: `src/application.cpp`: how one mode follows another; Application/Opening is the start of
--   the program, and Application/Opening/Starting what it leaves of the driver. Application/Leaving is
--   about the end of `run` of a mode and what the application does then; it uses Bar/Leaving,
--   Caisse/Leaving and Kve/Leaving, a round's steps one by one, and Mode/Leaving, what they share.
-- Tests: runs at concrete inputs, with a reader and a tag in the place of libnfc, and sums in cents in
--   the place of floats.
--
-- Bytes and `size_t` values are natural numbers with the wrap-around written out. A read of a vector
-- past its end, or through a null pointer, is a fault. The texts of messages are lists of character
-- codes. The loop of `Card::authenticate` has fuel for one round more than there are key bytes: round
-- `j` reads six bytes from `6 * j`, so it faults before the fuel is spent; spent fuel would give false,
-- which no call does. Card/Authenticate/Fuel relates the loop to one with its condition and without
-- fuel. `conso` of `Bar::run` is an association list in one order: the standard leaves open in which
-- order a loop visits a `std::unordered_map`, and the model puts a new key first, as libstdc++ does
-- where its bucket is empty. Amounts and the test for a key do not depend on the order, that of the
-- history lines and of the float additions does.
--
-- Not modelled: libnfc, jsoncpp, ncurses, the Python interpreter and the client of the database, which
-- are other projects' code and parameters; the waits for a key that is not used; the drafts of
-- `src/main.cpp` and the scripts beside it.
pub mod Common
pub mod Block
pub mod Sector
pub mod Printer
pub mod Mifare
pub mod NfcDevice
pub mod Card
pub mod Config
pub mod Mode
pub mod Bar
pub mod Caisse
pub mod Kve
pub mod Mysql
pub mod Python
pub mod Admin
pub mod Application
pub mod Tests
