-- ===== src/Sys/Rfkill.antt =====
-- internal/backend/sys/rfkill.go: the events of /dev/rfkill and the state of the wifi switches. What
-- `syscall.Read` answers is a list; `binary.NativeEndian` is the byte order of the machine.
pub mod Switches
use sinty_nm.Base.{
  ltb, ◌==◌, if◌then◌else◌, length, Bytes, zeros, byte_at, copy_at, ℕ, Bool, true, false, not, ◌&&◌,
  ◌||◌, Option, none, some, List, [], ◌∷◌, map,
}
use sinty_nm.Rtnl.Order.{ByteOrder, put32, uint32}

abbrev pub rfkill_type_wlan : ℕ
rfkill_type_wlan = 1

abbrev pub rfkill_op_del : ℕ
rfkill_op_del = 1

abbrev pub rfkill_op_change_all : ℕ
rfkill_op_change_all = 3

abbrev pub rfkill_event_size : ℕ
rfkill_event_size = 8

-- rfkillEvent
pub record RfkillEvent : Type 0 where
  pub idx : ℕ
  pub typ : ℕ
  pub op : ℕ
  pub soft : ℕ
  pub hard : ℕ

-- decodeEvent
unfoldable pub decode_event : ByteOrder → Bytes → RfkillEvent
decode_event o b = record {
  idx = uint32 o b;
  typ = byte_at b 4;
  op = byte_at b 5;
  soft = byte_at b 6;
  hard = byte_at b 7;
}

-- rfkillEvent.encode
unfoldable pub encode_event : ByteOrder → RfkillEvent → Bytes
encode_event o e =
    let b0 = copy_at 0 (put32 o e.idx) (zeros rfkill_event_size) in
    let b1 = copy_at 5 (e.op ∷ []) (copy_at 4 (e.typ ∷ []) b0) in
    copy_at 7 (e.hard ∷ []) (copy_at 6 (e.soft ∷ []) b1)

-- SetWifiBlocked: the event that is written.
abbrev pub block_event : Bool → RfkillEvent
block_event block = record {
  idx = 0;
  typ = rfkill_type_wlan;
  op = rfkill_op_change_all;
  soft = if block then 1 else 0;
  hard = 0;
}

-- One read of the device: interrupted, failed (EAGAIN ends a burst), or some bytes of the buffer.
pub data DeviceRead : Type 0 where
  interrupted : DeviceRead
  ended : DeviceRead
  read_bytes : Bytes → DeviceRead

-- readWLANState: an event that counts.
abbrev pub is_switch : RfkillEvent → Bool
is_switch e = e.typ == rfkill_type_wlan && not (e.op == rfkill_op_del)

-- readWLANState: the loop, with `soft` and `hard` so far.
unfoldable pub read_wlan_state : ByteOrder → List DeviceRead → Bool × Bool → Bool × Bool
read_wlan_state o [] s = s
read_wlan_state o (interrupted ∷ rs) s = read_wlan_state o rs s
read_wlan_state o (ended ∷ rs) s = s
read_wlan_state o (read_bytes b ∷ rs) s =
    let e = decode_event o b in
    let skipped = read_wlan_state o rs s in
    let counted = read_wlan_state o rs (s.0 || not (e.soft == 0), s.1 || not (e.hard == 0)) in
    if ltb (length b) rfkill_event_size then s else if is_switch e then counted else skipped

-- consumeEvents
unfoldable pub consume_events : ByteOrder → List DeviceRead → Bool → Bool
consume_events o [] seen = seen
consume_events o (interrupted ∷ rs) seen = consume_events o rs seen
consume_events o (ended ∷ rs) seen = seen
consume_events o (read_bytes b ∷ rs) seen =
    let rest = consume_events o rs (seen || (decode_event o b).typ == rfkill_type_wlan) in
    if ltb (length b) rfkill_event_size then seen else rest

-- One tick of Subscribe: what is pending, and the burst that a fresh open gives, if it opens.
pub record Tick : Type 0 where
  pub pending : List DeviceRead
  pub burst : Option (List DeviceRead)

-- Subscribe: the state that a tick reads, `none` where it goes on without.
unfoldable pub tick_state : ByteOrder → Tick → Option (Bool × Bool)
tick_state o t =
    if consume_events o t.pending false
    then elim t.burst [ none ↦ none | some rs ↦ some (read_wlan_state o rs (false, false)) ]
    else none

abbrev pub same_state : Bool × Bool → Bool × Bool → Bool
same_state (true, a) (true, b) = if a then b else not b
same_state (false, a) (false, b) = if a then b else not b
same_state _ _ = false

-- Subscribe: the calls of `fn` after the first, from the last state delivered.
unfoldable pub deliver : List (Option (Bool × Bool)) → Bool × Bool → List (Bool × Bool)
deliver [] last = []
deliver (none ∷ ts) last = deliver ts last
deliver (some s ∷ ts) last =
    let changed = deliver ts s in
    let unchanged = deliver ts last in if same_state s last then unchanged else s ∷ changed

-- Subscribe: all calls of `fn`, from the snapshot on; one that fails leaves both flags false.
unfoldable pub subscribe : ByteOrder → Option (List DeviceRead) → List Tick → List (Bool × Bool)
subscribe o snapshot ticks =
    let first : Bool × Bool = elim snapshot [
      | none ↦ (false, false)
      | some rs ↦ read_wlan_state o rs (false, false)
    ] in
    first ∷ deliver (map (tick_state o) ticks) first
