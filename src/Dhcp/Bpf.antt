-- ===== src/Dhcp/Bpf.antt =====
-- internal/backend/dhcp/socket_bpf.go: frames of a BPF read. A read past the end of a slice is a
-- panic in Go, and an error here. A nil slice is empty: the code tests lengths only.
pub mod Split
use sinty_nm.Base.{
  ltb, leb, ◌==◌, if◌then◌else◌, length, take, drop, replicate, Bytes, zeros, byte_at, copy_at,
  be16, get_le16, get_le32, Result, ◌>>=◌, ℕ, zero, suc, ◌+◌, ◌-◌, ◌*◌, ◌/◌, Bool, ◌&&◌, ◌||◌,
  Option, none, some, List, [], ◌∷◌, ok, err,
}

abbrev pub bpf_header_cap_len : ℕ
bpf_header_cap_len = 16

abbrev pub bpf_header_len : ℕ
bpf_header_len = 24

abbrev pub bpf_align : ℕ
bpf_align = 8

abbrev pub eth_header_len : ℕ
eth_header_len = 14

abbrev pub eth_p_ip : ℕ
eth_p_ip = 0x0800

pub data Panic : Type 0 where
  index_out_of_range : Panic

-- `binary.LittleEndian.Uint32(b)` and `Uint16(b)`: a panic where `b` is too short.
abbrev read_le32 : Bytes → Result Panic ℕ
read_le32 b = if ltb (length b) 4 then err index_out_of_range else ok (get_le32 b)

abbrev read_le16 : Bytes → Result Panic ℕ
read_le16 b = if ltb (length b) 2 then err index_out_of_range else ok (get_le16 b)

-- `b[lo:hi]` and `b[lo:]`. Past the length, Go panics or goes on into what an earlier read left behind:
-- either is an error here.
unfoldable pub slice : ℕ → ℕ → Bytes → Result Panic Bytes
slice lo hi b =
    if ltb (length b) hi || ltb hi lo then err index_out_of_range else ok (drop lo (take hi b))

unfoldable pub slice_from : ℕ → Bytes → Result Panic Bytes
slice_from lo b = if ltb (length b) lo then err index_out_of_range else ok (drop lo b)

-- splitBPF: the end of a frame, rounded up to eight bytes.
abbrev pub align_bpf : ℕ → ℕ
align_bpf end = (end + bpf_align - 1) / bpf_align * bpf_align

-- splitBPF: the frame and what follows it, once the two lengths are read.
cut_frame : Bytes → ℕ → ℕ → Result Panic (Bytes × Bytes)
unfolding slice slice_from
cut_frame b caplen hdrlen =
    let end = hdrlen + caplen in
    if ltb hdrlen bpf_header_len || ltb (length b) end
    then ok ([], [])
    else (slice hdrlen end b >>= λ frame.
        if leb (length b) (align_bpf end)
        then ok (frame, [])
        else (slice_from (align_bpf end) b >>= λ rest. ok (frame, rest)))

-- splitBPF
unfoldable pub split_bpf : Bytes → Result Panic (Bytes × Bytes)
unfolding cut_frame
split_bpf b = if ltb (length b) bpf_header_len then ok ([], []) else do
  caplen ← read_le32 (drop bpf_header_cap_len b)
  hdrlen ← read_le16 (drop (bpf_header_cap_len + 8) b)
  cut_frame b caplen hdrlen

-- next: whether a frame carries IPv4.
unfoldable pub is_ipv4_frame : Bytes → Bool
is_ipv4_frame frame =
    leb eth_header_len (length frame) && (byte_at frame 12 * 256 + byte_at frame 13) == eth_p_ip

-- next: the frames of the pending bytes, up to the first that carries IPv4. The fuel counts frames.
unfoldable pub take_pending : ℕ → Bytes → Result Panic (Option Bytes × Bytes)
take_pending zero pending = ok (none, pending)
take_pending (suc f) [] = ok (none, [])
take_pending (suc f) (x ∷ pending) = split_bpf (x ∷ pending) >>= λ s.
    let rest = take_pending f s.1 in
    if is_ipv4_frame s.0 then ok (some (drop eth_header_len s.0), s.1) else rest

-- bpfState.send
unfoldable pub bpf_frame : Bytes → Bytes → Bytes
bpf_frame mac packet =
    let f0 = zeros (eth_header_len + length packet) in
    let f1 = copy_at 6 mac (copy_at 0 (replicate 6 0xff) f0) in
    copy_at eth_header_len packet (copy_at 12 (be16 eth_p_ip) f1)

-- One `syscall.Read` of `next`: an error, no bytes, or at least one.
pub data ReadEvent : Type 0 where
  read_failed : ReadEvent
  read_empty : ReadEvent
  read_bytes : ℕ → Bytes → ReadEvent

pub data Next : Type 0 where
  packet : Bytes → Next
  nothing : Next
  failed : Next

-- next, from an empty `pending`, over the reads that the kernel answers.
next_read : List ReadEvent → Result Panic (Next × Bytes)
next_read [] = ok (nothing, [])
next_read (read_failed ∷ es) = ok (failed, [])
next_read (read_empty ∷ es) = ok (nothing, [])
next_read (read_bytes x b ∷ es) = take_pending (length (x ∷ b)) (x ∷ b) >>= λ s.
    let again = next_read es in elim s.0 [ none ↦ again | some p ↦ ok (packet p, s.1) ]

-- next
unfoldable pub next : Bytes → List ReadEvent → Result Panic (Next × Bytes)
unfolding next_read
next pending es = take_pending (length pending) pending >>= λ s. elim s.0 [
  | none ↦ next_read es
  | some p ↦ ok (packet p, s.1)
]
