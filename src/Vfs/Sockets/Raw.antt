-- ===== src/Vfs/Sockets/Raw.antt =====
-- crates/vfs/src/lib.rs: what the calls on sockets set and ask, and raw sockets, which hand a written
-- packet to each other.
use whuse.Prelude.{
  ℕ, zero, suc, ◌+◌, ◌-◌, ◌*◌, ◌/◌, ◌%◌, ◌^◌, Bool, true, false, not, ◌&&◌, List, [], ◌∷◌, ◌++◌,
  Option, none, some, leb, ◌==◌, if◌then◌else◌, length, get_or, replicate, KernelResult, ok, err,
}
use whuse.Prelude.Errno
use whuse.Prelude.Words.{wrapping_add}
use whuse.Prelude.Integers.{ℤ, pos, same}
use whuse.Prelude.Text.{Text, text_eq}
use whuse.Prelude.BTreeMap.{BTreeMap, get, insert}
use whuse.Vfs.{
  FileHandle, RawSocketState, NodeData, socket_pending, socket_connected, socket_raw, Heap,
  KernelVfs, Outside, node_at, set_contents,
}
use whuse.Vfs.Objects.Writing.{overwrite, write_object}
use whuse.Vfs.Handles.{HandleStep}

abbrev left : KernelVfs → FileHandle → NodeData → KernelVfs
left vfs handle contents = record vfs { heap = set_contents handle.node contents vfs.heap }

-- The flag after joining or leaving.
abbrev multicast : Bool → Bool → KernelResult Bool
multicast true joined = ok true
multicast false true = ok false
multicast false false = err 99

abbrev multicast_set :
    KernelVfs → FileHandle → (Bool → NodeData) → KernelResult Bool → HandleStep (Unit {0})
multicast_set vfs handle make (err e) = (vfs, handle, err e)
multicast_set vfs handle make (ok joined) = (left vfs handle (make joined), handle, ok tt)

unfoldable pub socket_ip_multicast_action : KernelVfs → FileHandle → Bool → HandleStep (Unit {0})
unfolding node_at set_contents
socket_ip_multicast_action vfs handle join = elim (node_at vfs.heap handle.node).contents [
  | socket_pending state ↦
      multicast_set vfs handle
        (λ joined. socket_pending (record state { multicast_joined = joined }))
        (multicast join state.multicast_joined)
  | socket_connected channel side family sock_type was_joined ↦
      multicast_set vfs handle (λ joined. socket_connected channel side family sock_type joined)
        (multicast join was_joined)
  | _ ↦ (vfs, handle, err Errno.enotsock)
]

-- A call that needs a raw socket with some property.
abbrev on_raw {ℓ} :
    {A : Type ℓ}
    → Heap
    → FileHandle
    → (RawSocketState → Bool)
    → (RawSocketState → A)
    → KernelResult A
on_raw heap handle allowed make = elim (node_at heap handle.node).contents [
  | socket_raw state ↦ if allowed state then ok (make state) else err Errno.einval
  | _ ↦ err Errno.enotsock
]

abbrev raw_set : KernelVfs → FileHandle → KernelResult RawSocketState → HandleStep (Unit {0})
raw_set vfs handle (err e) = (vfs, handle, err e)
raw_set vfs handle (ok state) = (left vfs handle (socket_raw state), handle, ok tt)

abbrev is_ipv6 : RawSocketState → Bool
is_ipv6 state = state.family == 10

abbrev is_icmp6 : RawSocketState → Bool
is_icmp6 state = state.family == 10 && state.protocol == 58

unfoldable pub socket_set_icmp6_filter : KernelVfs → FileHandle → List ℕ → HandleStep (Unit {0})
unfolding node_at set_contents
socket_set_icmp6_filter vfs handle filter =
    raw_set vfs handle
      (on_raw vfs.heap handle is_icmp6 (λ state. record state { icmp6_filter = filter }))

unfoldable pub socket_set_ipv6_checksum_offset :
    KernelVfs → FileHandle → Option ℕ → HandleStep (Unit {0})
unfolding node_at set_contents
socket_set_ipv6_checksum_offset vfs handle offset =
    raw_set vfs handle
      (on_raw vfs.heap handle is_ipv6 (λ state. record state { checksum_offset = offset }))

unfoldable pub socket_icmp6_filter : KernelVfs → FileHandle → KernelResult (List ℕ)
unfolding node_at
socket_icmp6_filter vfs handle = on_raw vfs.heap handle is_icmp6 (λ state. state.icmp6_filter)

unfoldable pub socket_set_ipv6_recv_opt : KernelVfs → FileHandle → ℕ → ℤ → HandleStep (Unit {0})
unfolding node_at set_contents
socket_set_ipv6_recv_opt vfs handle opt value = raw_set vfs handle (
    on_raw vfs.heap handle is_ipv6
      (λ state. record state { ipv6_recv_opts = insert opt value state.ipv6_recv_opts }))

abbrev value_or_zero : Option ℤ → ℤ
value_or_zero none = pos 0
value_or_zero (some value) = value

unfoldable pub socket_get_ipv6_recv_opt : KernelVfs → FileHandle → ℕ → KernelResult ℤ
unfolding node_at
socket_get_ipv6_recv_opt vfs handle opt =
    on_raw vfs.heap handle is_ipv6 (λ state. value_or_zero (get opt state.ipv6_recv_opts))

unfoldable pub ipv6_recv_opt_cmsg : ℕ → Option (ℕ × ℕ)
ipv6_recv_opt_cmsg opt =
    if opt == 49
    then some (50, 20)
    else if opt == 51
    then some (52, 4)
    else if opt == 66
    then some (67, 4)
    else if opt == 2
    then some (2, 20)
    else if opt == 8
    then some (8, 4)
    else none

abbrev cmsg_before : Option (ℕ × ℕ) → List (ℕ × List ℕ) → List (ℕ × List ℕ)
cmsg_before none cmsgs = cmsgs
cmsg_before (some (cmsg_type, payload_len)) cmsgs = (cmsg_type, replicate payload_len 0) ∷ cmsgs

abbrev recv_cmsgs : BTreeMap ℤ → List (ℕ × List ℕ)
recv_cmsgs [] = []
recv_cmsgs ((opt, value) ∷ opts) =
    if same value (pos 0)
    then recv_cmsgs opts
    else cmsg_before (ipv6_recv_opt_cmsg opt) (recv_cmsgs opts)

unfoldable pub socket_ipv6_recv_cmsgs : KernelVfs → FileHandle → KernelResult (List (ℕ × List ℕ))
unfolding node_at ipv6_recv_opt_cmsg
socket_ipv6_recv_cmsgs vfs handle =
    on_raw vfs.heap handle is_ipv6 (λ state. recv_cmsgs state.ipv6_recv_opts)

-- The sum of the words of 16 bits, the first byte of each the high one.
unfoldable pub checksum_add : ℕ → List ℕ → ℕ
checksum_add sum [] = sum
checksum_add sum (a ∷ []) = (sum + a * 256) % 2 ^ 32
checksum_add sum (a ∷ b ∷ bytes) = checksum_add ((sum + (a * 256 + b)) % 2 ^ 32) bytes

-- The loop of `checksum_finish`; a sum of 32 bits is below 2 ^ 16 after two turns.
unfoldable pub fold_carry : ℕ → ℕ → ℕ
fold_carry zero sum = sum
fold_carry (suc fuel) sum =
    let next = fold_carry fuel (sum % 2 ^ 16 + sum / 2 ^ 16) in
    if sum / 2 ^ 16 == 0 then sum else next

unfoldable pub checksum_finish : ℕ → ℕ
unfolding fold_carry
checksum_finish sum = 65535 - fold_carry 3 sum % 2 ^ 16

abbrev pub pseudo_header : ℕ → ℕ → List ℕ
pseudo_header next_header len =
    replicate 15 0
    ++ 1 ∷ replicate 15 0
    ++ 1
      ∷ len / 2 ^ 24 % 256
      ∷ len / 2 ^ 16 % 256
      ∷ len / 2 ^ 8 % 256
      ∷ len % 256
      ∷ 0
      ∷ 0
      ∷ 0
      ∷ next_header
      ∷ []

unfoldable pub ipv6_raw_checksum : ℕ → List ℕ → ℕ
unfolding checksum_add checksum_finish
ipv6_raw_checksum next_header packet =
    checksum_finish
      (checksum_add (checksum_add 0 (pseudo_header next_header (length packet))) packet)

-- The packet with its checksum.
unfoldable pub with_checksum : ℕ → Option ℕ → List ℕ → KernelResult (List ℕ)
unfolding ipv6_raw_checksum
with_checksum protocol none packet = ok packet
with_checksum protocol (some offset) packet =
    if leb (length packet) (wrapping_add offset 1)
    then err Errno.einval
    else (let cleared = overwrite offset (0 ∷ 0 ∷ []) packet in
        let checksum = ipv6_raw_checksum (protocol % 256) cleared in
        ok (overwrite offset (checksum / 256 ∷ checksum % 256 ∷ []) cleared))

abbrev bound_alike : Option Text → Option Text → Bool
bound_alike (some src) (some dst) = text_eq src dst
bound_alike _ _ = true

abbrev is_filtered : ℕ → RawSocketState → Bool
is_filtered send_type peer =
    get_or peer.icmp6_filter (send_type / 32) 0 / 2 ^ (send_type % 32) % 2 == 1

-- Whether a raw socket gets the packet of another.
abbrev hears : RawSocketState → ℕ → RawSocketState → Bool
hears state send_type peer =
    peer.family == state.family
    && peer.protocol == state.protocol
    && bound_alike state.bound_path peer.bound_path
    && not (state.protocol == 58 && is_filtered send_type peer)

abbrev delivered : RawSocketState → List ℕ → ℕ → Heap → Heap
delivered state packet node heap = elim (node_at heap node).contents [
  | socket_raw peer ↦
      if hears state (get_or packet 0 0) peer
      then set_contents node (socket_raw (record peer { inbox = peer.inbox ++ packet ∷ [] })) heap
      else heap
  | _ ↦ heap
]

abbrev deliver_each : RawSocketState → List ℕ → List ℕ → Heap → Heap
deliver_each state packet [] heap = heap
deliver_each state packet (node ∷ nodes) heap =
    deliver_each state packet nodes (delivered state packet node heap)

abbrev sent : KernelVfs → FileHandle → RawSocketState → ℕ → KernelResult (List ℕ) → HandleStep ℕ
sent vfs handle state len (err e) = (vfs, handle, err e)
sent vfs handle state len (ok packet) =
    (record vfs { heap = deliver_each state packet vfs.raw_sockets vfs.heap }, handle, ok len)

abbrev wrote_object : KernelVfs → Heap × FileHandle × KernelResult ℕ → HandleStep ℕ
wrote_object vfs (heap, handle, r) = (record vfs { heap = heap }, handle, r)

-- `KernelVfs::write`
unfoldable pub write : Outside → KernelVfs → FileHandle → List ℕ → HandleStep ℕ
unfolding node_at set_contents with_checksum write_object
write outside vfs handle data_bytes = elim (node_at vfs.heap handle.node).contents [
  | socket_raw state ↦
      sent vfs handle state (length data_bytes)
        (with_checksum state.protocol state.checksum_offset data_bytes)
  | _ ↦ wrote_object vfs (write_object outside vfs.heap handle data_bytes)
]
