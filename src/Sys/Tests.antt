-- ===== src/Sys/Tests.antt =====
-- The theorems on internal/backend/sys at concrete reads.
use sinty_nm.Base.{◌≡◌, ◌↔◌, Bool, true, false, some, List, [], ◌∷◌, map, arith}
use sinty_nm.Rtnl.Order.{little_endian, big_endian}
use sinty_nm.Sys.Rfkill.{
  decode_event, encode_event, block_event, DeviceRead, interrupted, read_bytes, read_wlan_state,
  Tick, tick_state, subscribe,
}
use sinty_nm.Sys.Rfkill.Switches.{
  Reports, soft_blocked, hard_blocked, Changing, last_of, last_read, decode_event-encode_event,
  read_wlan_state_iff, subscribe-Changing,
}

-- Switch 0 as it is added, soft blocked and then free.
abbrev blocked_burst : List DeviceRead
blocked_burst = interrupted ∷ read_bytes (0 ∷ 0 ∷ 0 ∷ 0 ∷ 1 ∷ 0 ∷ 1 ∷ 0 ∷ []) ∷ []

abbrev free_burst : List DeviceRead
free_burst = read_bytes (0 ∷ 0 ∷ 0 ∷ 0 ∷ 1 ∷ 0 ∷ 0 ∷ 0 ∷ []) ∷ []

abbrev test_ticks : List Tick
test_ticks =
    record { pending = []; burst = some blocked_burst }
    ∷ record { pending = blocked_burst; burst = some blocked_burst }
    ∷ record { pending = free_burst; burst = some free_burst }
    ∷ []

decode_event-encode_event_example :
    decode_event big_endian (encode_event big_endian (block_event true)) ≡ block_event true
decode_event-encode_event_example =
    decode_event-encode_event big_endian (block_event true) (omega arith)

read_wlan_state_iff_example :
    (((read_wlan_state little_endian blocked_burst (false, false)).0 ≡ true)
      ↔ Reports little_endian soft_blocked blocked_burst)
    × (((read_wlan_state little_endian blocked_burst (false, false)).1 ≡ true)
        ↔ Reports little_endian hard_blocked blocked_burst)
read_wlan_state_iff_example = read_wlan_state_iff little_endian blocked_burst

subscribe-Changing_example :
    let first = read_wlan_state little_endian free_burst (false, false) in
    (later : List (Bool × Bool)) × (subscribe little_endian (some free_burst) test_ticks
      ≡ first ∷ later)
    × Changing first later
    × (last_of first later ≡ last_read first (map (tick_state little_endian) test_ticks))
subscribe-Changing_example = subscribe-Changing little_endian free_burst test_ticks
