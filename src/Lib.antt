-- ===== src/Lib.antt =====
-- A model of the firmware of a desk companion for coding agents: a small stick with a screen that
-- shows the sessions of the agents on a computer, asks for permissions, and keeps a pet.
--
-- A host sends lines of JSON over USB or BLE. The parse core reads each line and changes the
-- displayed state, the session table, the ring of cards and the state of the connection, and calls
-- the device through hooks (clock, statistics, host registry, networks, file transfer). Beside it
-- stand the file transfer, the two line feeders, the BLE link with its receive ring and pairing
-- window, the registry of bonded hosts with its connection policy, the network list and its file,
-- the clock, the buttons and gestures, a pomodoro timer, the sounds and the layout of the screens.
--
-- The files and the code they model:
-- - Prelude: tests on numbers, lists and fixed arrays by native numbers, C strings as byte lists,
--   the wrap-around of machine words, and the lemmas on the loops over arrays.
-- - Text.Utf8: src/logic/utf8_text_logic.h. `sanitize` is utf8Sanitize, `safe_prefix_bytes` is
--   utf8SafePrefixBytes; the loops run on fuel, the length of the text, and each round takes a byte
--   or more.
-- - Text.Wrap: src/logic/wrap_text_logic.h; the fuel is the length of the text and of the word. Ota:
--   src/logic/ota_url_logic.h, with strstr and strchr written out.
-- - Sessions: src/session_table.h, one function for each sessionTab function.
-- - Ntfy: the NtfyStore of src/proto_parse.h.
-- - Proto: the rest of src/proto_parse.h. `dispatch` is the body of protoApplyJson behind the
--   parser, with one function for each handler. The JSON library is the record `Json` of accessors,
--   the proto hooks are the record `Device`, and both are parameters; Proto.Sample instantiates
--   them. `Wire.overrun` records a write past the array of lines, which the source leaves undefined.
-- - Hosts: src/host_registry.h, the pure half. HostLink: src/host_registry.cpp, with the
--   radio as an input of each call, the requests to it as a list, and NVS as part of the state.
-- - Ble: src/ble_bridge.cpp. Ble.Ring is rxPush, bleAvailable and bleRead; Ble.Link the callbacks of
--   the stack and the pairing window, with the requests to the stack as a list; Ble.Bonds
--   bleBondKeyBda and the removal of bonds; Ble.Chunks is bleWrite, on fuel, the length of the text,
--   since each chunk takes a byte or more. Callbacks run one at a time.
-- - Feed: src/data.h. `poll` is dataPoll; what the two transports deliver is its input.
-- - Xfer: src/xfer.h. `xfer_command` is xferCommand, with a function for each command; the file
--   system, the decoder and the pet are the record `Board`, a parameter, which Xfer.Examples
--   instantiates with its `Laws`.
-- - Wifi.Networks: src/logic/wifi_store_logic.h. Wifi.Store: src/wifi_store.cpp. The file system
--   (LittleFS) is the record `FileSystem` of operations, a parameter, and what the code relies on is
--   the record `Laws`; Wifi.Store.Examples instantiates both. `past` keeps the file systems between
--   the calls, where a power cut may strike.
-- - Clock: Clock.Time is src/logic/clock_time_logic.h, with a time_t of 32 bits that wraps;
--   Clock.Display is src/logic/clock_display_logic.h; Clock.Orient is
--   src/logic/clock_orient_logic.h, with the comparisons of floats as a parameter.
-- - Input: src/logic/button_logic.h, and src/logic/gesture_logic.h in Input.Gesture, with the
--   operations on floats as a parameter. Pomodoro: src/logic/pomodoro_logic.h. Motifs:
--   src/audio/motifs.h. Screen: src/logic/ui_layout_logic.h, src/logic/persona_logic.h and
--   src/logic/pairing_gate_logic.h. Time is an argument of each call, a uint32_t tick.
-- - Stats: src/stats.h. The statistics in NVS are a copy of the record; the settings are typed
--   entries under their keys, as in the library that stores them.
--
-- Numbers are native natural numbers with the wrap-around of their width written out; an index of
-- -1 and a null pointer are `none`; a fixed array is a list of its size. A loop is recursion on the
-- rounds that are left, taken from its bound.
--
-- Not modelled: drawing and menus (src/main.cpp, src/buddies, src/character.cpp), the hardware
-- layer, the set-up of the BLE stack, the join of a network (wifiJoinBest) and the network update,
-- the tune player, the infrared output and the audio driver; log lines; the whitelist and debug
-- build flags; the host program, which is in another language.
pub mod Ble
pub mod Clock
pub mod Feed
pub mod HostLink
pub mod Hosts
pub mod Input
pub mod Motifs
pub mod Ntfy
pub mod Ota
pub mod Pomodoro
pub mod Prelude
pub mod Proto
pub mod Screen
pub mod Sessions
pub mod Stats
pub mod Text
pub mod Wifi
pub mod Xfer
