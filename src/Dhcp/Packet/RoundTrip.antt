-- ===== src/Dhcp/Packet/RoundTrip.antt =====
-- internal/backend/dhcp/packet.go: `parseReply` reads back what `buildMsg` writes.
use sinty_nm.Base.{
  ◌==◌, if◌then◌else◌, le→not_ltb, Bool-cases, length, take, drop, All, length-append, length-take,
  drop_append, All-append, Bytes, zeros, byte_at, copy_at, be16, be32, get_be32, get_be32-be32, ℕ,
  zero, suc, ◌+◌, ◌^◌, ◌≤◌, ◌<◌, ◌≡◌, refl, sym, ap, ◌∙◌, ◌≢◌, ◌⊎◌, inl, inr, Bool, true, false,
  not, ◌||◌, Option, none, some, List, [], ◌∷◌, ◌++◌, append-nil, append_assoc, arith, ok,
}
use sinty_nm.Base.Window.{
  window, length-copy_at, window-copy_at, window-copy_at_self, window-append, byte_at-window,
  get_be32-take,
}
use sinty_nm.Net.{ipv4, to4_bytes, bytes_equal}
use sinty_nm.Dhcp.Packet.{
  msg_discover, msg_request, msg_release, opt_requested_ip, opt_msg_type, opt_server_id,
  opt_param_list, opt_client_id, opt_end, magic_cookie, open_header, release_header,
  append_requested_ip, append_server_id, requested_params, build_header, build_options, build_msg,
  parse_options, parse_reply,
}
use sinty_nm.Dhcp.Packet.Options.{encode_options, IsCode, record_all, parse_options-encode_options}

-- The address that `opts` carries, if there is one.
abbrev pub address_option : ℕ → Option Bytes → List (ℕ × Bytes)
address_option code none = []
address_option code (some ip) = (code, to4_bytes ip) ∷ []

abbrev pub requested_options : ℕ → Option Bytes → List (ℕ × Bytes)
requested_options mtype ip = if mtype == msg_request then address_option opt_requested_ip ip else []

abbrev pub param_options : ℕ → List (ℕ × Bytes)
param_options mtype =
    if mtype == msg_discover || mtype == msg_request
    then (opt_param_list, requested_params) ∷ []
    else []

-- The options of a message, in the order sent.
abbrev pub sent_options : ℕ → Bytes → Option Bytes → Option Bytes → List (ℕ × Bytes)
sent_options mtype mac req_ip server_id =
    (opt_msg_type, mtype ∷ [])
    ∷ (opt_client_id, 1 ∷ mac)
    ∷ (requested_options mtype req_ip
        ++ (address_option opt_server_id server_id ++ param_options mtype))

-- An address argument of `buildMsg`: nil, or an IPv4 address in either form.
abbrev pub IsIp4 : Option Bytes → Type 0
IsIp4 none = Unit
IsIp4 (some ip) = length (to4_bytes ip) ≡ 4

record IsHeader (xid : ℕ) (h : Bytes) : Type 0 where
  size : length h ≡ 240
  xid_at : window 4 4 h ≡ be32 xid
  yiaddr_at : window 16 4 h ≡ zeros 4

-- A write that misses both fields and the size.
copy_at-IsHeader :
    (xid i : ℕ) (src h : Bytes)
    → (8 ≤ i) × ((20 ≤ i) ⊎ (i + length src ≤ 16))
    → IsHeader xid h
    → IsHeader xid (copy_at i src h)
copy_at-IsHeader xid i src h (p, q) v = record {
  size = length-copy_at i src h ∙ v.size;
  xid_at = window-copy_at 4 4 i src h (inl (omega arith)) ∙ v.xid_at;
  yiaddr_at = window-copy_at 16 4 i src h (omega arith) ∙ v.yiaddr_at;
}

open_header-IsHeader : (xid : ℕ) → IsHeader xid (open_header xid)
unfolding open_header
open_header-IsHeader xid = record { size = refl; xid_at = refl; yiaddr_at = refl }

release_header-IsHeader :
    (xid : ℕ) (ip : Option Bytes) (h : Bytes) → IsHeader xid h → IsHeader xid (release_header ip h)
unfolding release_header
release_header-IsHeader xid none h v = v
release_header-IsHeader xid (some ip) h v =
    copy_at-IsHeader xid 12 (take 4 (to4_bytes ip)) h
      (omega arith, inr (omega (arith, length-take 4 (to4_bytes ip)))) v

flagged-IsHeader :
    (xid : ℕ) (ip : Option Bytes) (release : Bool)
    → IsHeader xid (
        if not release
        then copy_at 10 (be16 0x8000) (open_header xid)
        else release_header ip (open_header xid))
flagged-IsHeader xid ip true = release_header-IsHeader xid ip _ (open_header-IsHeader xid)
flagged-IsHeader xid ip false =
    copy_at-IsHeader xid 10 (be16 0x8000) _ (omega arith, inr (omega arith))
      (open_header-IsHeader xid)

cookie_written :
    (h : Bytes) → length h ≡ 240 → window 236 4 (copy_at 236 magic_cookie h) ≡ magic_cookie
cookie_written h e = window-copy_at_self 236 magic_cookie h (omega arith)

build_header-IsHeader :
    (mtype xid : ℕ) (mac : Bytes) (req_ip : Option Bytes)
    → IsHeader xid (build_header mtype xid mac req_ip)
      × (window 236 4 (build_header mtype xid mac req_ip) ≡ magic_cookie)
unfolding build_header
build_header-IsHeader mtype xid mac req_ip =
    let chaddr =
      copy_at-IsHeader xid 28 (take 6 mac) _ (omega arith, inl (omega arith))
        (flagged-IsHeader xid req_ip (mtype == msg_release)) in
    (
      copy_at-IsHeader xid 236 magic_cookie _ (omega arith, inl (omega arith)) chaddr,
      cookie_written _ chaddr.size,
    )

append_requested_ip-encode :
    (mtype : ℕ) (ip : Option Bytes) (o : Bytes)
    → IsIp4 ip
    → append_requested_ip mtype ip o ≡ o ++ encode_options (requested_options mtype ip)
unfolding append_requested_ip
append_requested_ip-encode mtype none o v = elim (Bool-cases (mtype == msg_request)) [
  | inl e ↦ rw e (sym (append-nil o))
  | inr e ↦ rw e (sym (append-nil o))
]
append_requested_ip-encode mtype (some ip) o v = elim (Bool-cases (mtype == msg_request)) [
  | inl e ↦ rw e (simp (append_assoc, append-nil, v))
  | inr e ↦ rw e (sym (append-nil o))
]

append_server_id-encode :
    (ip : Option Bytes) (o : Bytes)
    → IsIp4 ip
    → append_server_id ip o ≡ o ++ encode_options (address_option opt_server_id ip)
unfolding append_server_id
append_server_id-encode none o v = sym (append-nil o)
append_server_id-encode (some ip) o v = simp (append_assoc, append-nil, v)

encode_options-append :
    (os ps : List (ℕ × Bytes)) → encode_options (os ++ ps) ≡ encode_options os ++ encode_options ps
encode_options-append [] ps = refl
encode_options-append ((c, v) ∷ os) ps = simp (encode_options-append os ps, append_assoc)

build_options-encode :
    (mtype : ℕ) (mac : Bytes) (req_ip server_id : Option Bytes)
    → length mac ≡ 6
    → IsIp4 req_ip
    → IsIp4 server_id
    → build_options mtype mac req_ip server_id
      ≡ encode_options (sent_options mtype mac req_ip server_id) ++ opt_end ∷ []
unfolding build_options
build_options-encode mtype mac req_ip server_id m r s =
    elim (Bool-cases (mtype == msg_discover || mtype == msg_request)) [
      | inl e ↦ rw e (
          simp (
            append_requested_ip-encode mtype req_ip _ r,
            append_server_id-encode server_id _ s,
            encode_options-append,
            append_assoc,
            m,
            append-nil,
          ))
      | inr e ↦ rw e (
          simp (
            append_requested_ip-encode mtype req_ip _ r,
            append_server_id-encode server_id _ s,
            encode_options-append,
            append_assoc,
            m,
            append-nil,
          ))
    ]

window_at : (k : ℕ) (h o v : Bytes) → k + 4 ≤ length h → window k 4 h ≡ v → window k 4 (h ++ o) ≡ v
window_at k h o v fits e = window-append k 4 h o fits ∙ e

drop_at : (k : ℕ) (h o : Bytes) → length h ≡ k → drop k (h ++ o) ≡ o
drop_at k h o e = rw (← e) (drop_append h o)

yiaddr_byte : (i : ℕ) (b : Bytes) → i < 4 → window 16 4 b ≡ zeros 4 → byte_at b (16 + i) ≡ 0
yiaddr_byte zero b h e = sym (byte_at-window 0 16 4 b h) ∙ ap (λ w. byte_at w 0) e
yiaddr_byte (suc zero) b h e = sym (byte_at-window 1 16 4 b h) ∙ ap (λ w. byte_at w 1) e
yiaddr_byte (suc (suc zero)) b h e = sym (byte_at-window 2 16 4 b h) ∙ ap (λ w. byte_at w 2) e
yiaddr_byte (suc (suc (suc zero))) b h e = sym (byte_at-window 3 16 4 b h) ∙ ap (λ w. byte_at w 3) e
yiaddr_byte (suc (suc (suc (suc i)))) b h e = absurd (omega arith)

bytes_equal_refl : (b : Bytes) → bytes_equal b b ≡ true
bytes_equal_refl [] = refl
bytes_equal_refl (x ∷ b) = ground (arith, bytes_equal_refl b)

read_xid :
    (xid : ℕ) (b : Bytes) → xid < 2 ^ 32 → window 4 4 b ≡ be32 xid → get_be32 (drop 4 b) ≡ xid
read_xid xid b h e =
    sym (get_be32-take (drop 4 b)) ∙ ap (λ (w : Bytes). get_be32 w) e ∙ get_be32-be32 xid [] h

-- A packet of full size with the cookie is accepted.
parse_reply_accepts :
    (b : Bytes)
    → 240 ≤ length b
    → window 236 4 b ≡ magic_cookie
    → parse_reply b
      ≡ ok (record {
        xid = get_be32 (drop 4 b);
        yiaddr = some (ipv4 (byte_at b 16) (byte_at b 17) (byte_at b 18) (byte_at b 19));
        opts = parse_options (length b) (drop 240 b) [];
      })
unfolding parse_reply
parse_reply_accepts b long cookie = rw (le→not_ltb (length b) 240 long, cookie)

-- A header and encoded options, whatever stands behind the end mark.
parse_reply_framed :
    (xid : ℕ) (h : Bytes) (os : List (ℕ × Bytes)) (rest : Bytes)
    → xid < 2 ^ 32
    → IsHeader xid h
    → window 236 4 h ≡ magic_cookie
    → All IsCode os
    → parse_reply (h ++ (encode_options os ++ opt_end ∷ rest))
      ≡ ok (record { xid = xid; yiaddr = some (ipv4 0 0 0 0); opts = record_all os [] })
parse_reply_framed xid h os rest x v c os_ok =
    let o = encode_options os ++ opt_end ∷ rest in
    let b = h ++ o in
    let size : length b ≡ 240 + length o = length-append h o ∙ ap (λ n. n + length o) v.size in
    let zero_yiaddr : window 16 4 b ≡ zeros 4 =
      window_at 16 h o (zeros 4) (omega (arith, v.size)) v.yiaddr_at in
    parse_reply_accepts b (omega (arith, size))
      (window_at 236 h o magic_cookie (omega (arith, v.size)) c)
    ∙ rw (
      read_xid xid b x (window_at 4 h o (be32 xid) (omega (arith, v.size)) v.xid_at),
      yiaddr_byte 0 b (omega arith) zero_yiaddr,
      yiaddr_byte 1 b (omega arith) zero_yiaddr,
      yiaddr_byte 2 b (omega arith) zero_yiaddr,
      yiaddr_byte 3 b (omega arith) zero_yiaddr,
      drop_at 240 h o v.size,
      parse_options-encode_options (length b) os rest [] os_ok (omega (arith, size)),
    )

address_option-IsCode :
    (code : ℕ) (ip : Option Bytes) → code ≢ 0 → code ≢ opt_end → All IsCode (address_option code ip)
address_option-IsCode code none p q = tt
address_option-IsCode code (some ip) p q = ((p, q), tt)

param_options-IsCode : (mtype : ℕ) → All IsCode (param_options mtype)
param_options-IsCode mtype = elim (Bool-cases (mtype == msg_discover || mtype == msg_request)) [
  | inl e ↦ rw e ((omega arith, omega arith), tt)
  | inr e ↦ rw e tt
]

requested_options-IsCode : (mtype : ℕ) (ip : Option Bytes) → All IsCode (requested_options mtype ip)
requested_options-IsCode mtype ip = elim (Bool-cases (mtype == msg_request)) [
  | inl e ↦ rw e (address_option-IsCode opt_requested_ip ip (omega arith) (omega arith))
  | inr e ↦ rw e tt
]

sent_options-IsCode :
    (mtype : ℕ) (mac : Bytes) (req_ip server_id : Option Bytes)
    → All IsCode (sent_options mtype mac req_ip server_id)
sent_options-IsCode mtype mac req_ip server_id =
    let params =
      All-append IsCode (address_option opt_server_id server_id) _
        (address_option-IsCode opt_server_id server_id (omega arith) (omega arith))
        (param_options-IsCode mtype) in
    let tail =
      All-append IsCode (requested_options mtype req_ip) _ (requested_options-IsCode mtype req_ip)
        params in
    ((omega arith, omega arith), ((omega arith, omega arith), tail))

-- `parseReply` of a message that `buildMsg` made for a MAC of six bytes, a 32-bit transaction id and
-- IPv4 addresses (or nil) gives that id, a zero yiaddr and exactly the options sent.
pub parse_reply-build_msg :
    (mtype xid : ℕ) (mac : Bytes) (req_ip server_id : Option Bytes)
    → xid < 2 ^ 32
    → length mac ≡ 6
    → IsIp4 req_ip
    → IsIp4 server_id
    → parse_reply (build_msg mtype xid mac req_ip server_id)
      ≡ ok (record {
        xid = xid;
        yiaddr = some (ipv4 0 0 0 0);
        opts = record_all (sent_options mtype mac req_ip server_id) [];
      })
unfolding build_msg
parse_reply-build_msg mtype xid mac req_ip server_id x m r s =
    let (header, cookie) = build_header-IsHeader mtype xid mac req_ip in
    rw (build_options-encode mtype mac req_ip server_id m r s) (
      parse_reply_framed xid _ (sent_options mtype mac req_ip server_id) [] x header cookie
        (sent_options-IsCode mtype mac req_ip server_id))
