-- ===== src/Lib.antt =====
-- Verification of the VoodooPS2 drivers: the ALPS touchpad driver, the keyboard driver, and the
-- parts of the PS/2 controller driver that they stand on.
--
-- The device sends bytes. The controller driver hands each to `ALPS::interruptOccurred`, which
-- collects packets in a ring buffer and checks them; `ALPS::packetReady` takes the packets out and
-- calls the handler of the protocol, which decodes them and reports touches, stick motion and
-- scrolling. In the other direction the driver sends requests, lists of PS/2 commands, to the
-- controller, and drives the registers of the device by nibbles that are commands themselves.
--
-- The keyboard driver works alike: `interruptOccurred` makes packets of scan codes, `packetReady`
-- passes them through the macros to `dispatchKeyboardEventWithPacket`, which sends key events to
-- the system and tells the touchpad driver of them; that sends back the gestures that stand for
-- key sequences.
--
-- The files and the code that they model:
-- - Base: numbers, lists, words and the C operators on them, signed integers. `|` and `&` are the
--   native bit operations, with laws for masks and disjoint fields in Base/Bits.
-- - RingBuffer: `RingBuffer` of VoodooPS2Controller/ApplePS2Device.h. `n` is the size N; indices
--   are unsigned words; a method that changes the object returns it. RingBuffer/Bounds, Advance and
--   Fifo hold its properties, the last against a queue of bytes.
-- - Controller/Ports: both `readDataPort` of VoodooPS2Controller/VoodooPS2Controller.cpp. The
--   hardware is the list of what the polls of the status port give; behind its end nothing comes.
-- - Controller/Request: `processRequest` of the same file, over the state `Ps2Controller`, which
--   keeps what was written and which bytes were dispatched to drivers.
-- - Alps/Types: the records and constants of VoodooPS2Trackpad/alps.h; `Driver` is the state of the
--   driver object that packets pass through; `Action` is a call that a handler makes.
-- - Alps/Decode: the packet decoders of VoodooPS2Trackpad/alps.cpp, by protocol.
-- - Alps/Bitmap: `alps_get_bitmap_points` and `alps_process_bitmap` of the same file.
-- - Alps/Process: its packet handlers, by protocol. A handler maps a driver and a packet to the
--   driver and the calls made.
-- - Alps/Framing: `interruptOccurred` and `packetReady`, and `receive_all`, a stream of bytes where
--   `packetReady` runs behind each byte that asks for it and before the next one. The controller may
--   deliver all the bytes that are pending before it runs (VoodooPS2Controller.cpp, the interrupt
--   handler and its work loop): that schedule is not modelled, and a byte that comes late is stored
--   behind the packet.
-- - Alps/Command: the command mode and the requests that the driver makes.
-- - Alps/Identify: `alps_model_data`, the search of `matchTable`, and the reports and the decision
--   of `identify`.
-- - Alps/HwInit: the `alps_hw_init_*` methods and what they call. A `goto error` is an attempt that
--   ends with `none`; a method that writes `priv` returns it.
-- - Alps/Setup: `set_protocol`, the rest of `matchTable` and `identify`, `probe`, `restart`,
--   `deviceSpecificInit` and `initTouchPad`, the last with `setDevicePowerState` from
--   VoodooPS2Trackpad/VoodooPS2TouchPadBase.cpp.
-- - Alps/Dispatch: the scaling of positions in `dispatchEventsWithInfo`.
-- - Touchpad/Averages: the filters of VoodooPS2Trackpad/Decay.h.
-- - Touchpad/MiddleButton: `middleButton` and `onButtonTimer` of VoodooPS2TouchPadBase.cpp; the
--   timer and pointer events of a call are a list.
-- - Touchpad/Momentum: `onScrollTimer` of the same file.
-- - Touchpad/Messages: `receiveMessage` of the same file.
-- - Keyboard: VoodooPS2Keyboard/VoodooPS2Keyboard.cpp. Types has the state of `ApplePS2Keyboard`, its
--   configuration, and the kernel as a source of answers; what the driver does outside its object is
--   a list, the latest first. Packets has the layout of a packet, Interrupt `interruptOccurred`,
--   Dispatch, Special and Levels `dispatchKeyboardEventWithPacket`, Macros the macro inversion over
--   an interface to the rest, Delivery `packetReady`, `onMacroTimer`, `message` and `receiveMessage`,
--   Lifecycle `initKeyboard` and the requests to the keyboard, Parse the parsers of texts, Load the
--   loaders of the tables, and Stock the tables of VoodooPS2Keyboard/ApplePS2ToADBMap.h.
-- - Examples: runs at concrete inputs.
--
-- Bounds: the loop over a bitmap has 32 rounds, as a map has 32 bits. The packet loop has as many
-- rounds as the ring has bytes; each round takes a packet of six or eight bytes, so there are
-- more rounds than packets. So it is with the packets of the keyboard, of 16 bytes. The time-out counter of the reads is the one of the source.
-- The loop of `parseAction` has as many rounds as the array has places: each round fills one.
-- Bytes are numbers below 256; where a theorem needs that, it says so. The times of the button
-- machine are of 64 bits, and their difference wraps. The sum of `SimpleAverage`, the coordinates of
-- the corners and the distances of the bitmaps are `int`s, 32 bits that wrap around.
--
-- Not modelled: what `dispatchEventsWithInfo` does with a scaled position, its writes to the base
-- class among them; the drag timer of VoodooPS2TouchPadBase.cpp; the
-- monitor mode of V6, which no code reaches; the keyboard's `init`, `start` and `setParamProperties` but for the
-- loaders, its logging and its DEBUG build; the waits for the input buffer of
-- the hardware, queues, locks, property lists, sleeps and logging, which are kernel services. A
-- handler pointer that is null is a crash, `none`; a null decoder decodes nothing, and no protocol
-- calls one.
pub mod Base
pub mod RingBuffer
pub mod Controller
pub mod Alps
pub mod Touchpad
pub mod Keyboard
pub mod Examples
