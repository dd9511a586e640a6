-- ===== src/Airplay/Dns/Records.antt =====
-- source/protocol/airplay/discovery/dns.h and dns.c: the service and the record set that announces it.
use nx_cast.Base.{
  ℕ, ◌+◌, ◌-◌, ◌/◌, ◌%◌, Bool, true, not, ◌&&◌, ◌||◌, Option, some, none, [], ◌∷◌, ◌++◌,
  if◌then◌else◌, leb, ltb, ◌==◌, length, take,
}
use nx_cast.Base.Text.{Bytes, codes}
use nx_cast.Airplay.Dns.Writer.{
  Writer, ◌>>=◌, name_max, packet_max, write_bytes, write_u16, write_u32, patch_u16, write_label,
  write_name, write_pointer,
}

-- A C string is its bytes without the NUL, and `txt` is the whole array, of which `txt_size` bytes count.
-- The address is a word whose bytes lie in memory from the lowest on.
pub record Service : Type 0 where
  pub service_name : Bytes
  pub instance_name : Bytes
  pub host_name : Bytes
  pub port : ℕ
  pub ipv4_address : ℕ
  pub txt : Bytes
  pub txt_size : ℕ

abbrev pub type_a : ℕ
type_a = 1

abbrev pub type_ptr : ℕ
type_ptr = 12

abbrev pub type_txt : ℕ
type_txt = 16

abbrev pub type_srv : ℕ
type_srv = 33

abbrev pub type_any : ℕ
type_any = 255

abbrev pub txt_max : ℕ
txt_max = 512

abbrev pub default_service_name : Bytes
default_service_name = codes "_airplay._tcp.local"

unfoldable pub service_valid : Service → Bool
service_valid s =
    ltb 0 (length s.instance_name)
    && ltb 0 (length s.host_name)
    && not (s.port == 0)
    && not (s.ipv4_address == 0)
    && ltb 0 s.txt_size
    && leb s.txt_size txt_max

-- `service_name`
unfoldable pub full_service_name : Service → Bytes
full_service_name s = if ltb 0 (length s.service_name) then s.service_name else default_service_name

unfoldable pub make_instance_full : Service → Option Bytes
make_instance_full s =
    if length s.instance_name == 0
      || ltb 63 (length s.instance_name)
      || ltb name_max (length s.instance_name + 1 + length (full_service_name s))
    then none
    else some (s.instance_name ++ b'.' ∷ full_service_name s)

abbrev pub local_suffix : Bytes
local_suffix = codes ".local"

unfoldable pub make_host_full : Service → Option Bytes
make_host_full s =
    if length s.host_name == 0
      || ltb 63 (length s.host_name)
      || ltb name_max (length s.host_name + 6)
    then none
    else some (s.host_name ++ local_suffix)

-- `&service->ipv4_address` as four bytes.
unfoldable pub address_bytes : ℕ → Bytes
address_bytes a = (a % 256) ∷ (a / 256 % 256) ∷ (a / 65536 % 256) ∷ (a / 16777216 % 256) ∷ []

-- `&service->txt` as `txt_size` bytes.
abbrev pub txt_bytes : Service → Bytes
txt_bytes s = take s.txt_size s.txt

-- The class of a record that only this service has: `DNS_CLASS_IN | DNS_CLASS_CACHE_FLUSH`.
abbrev pub class_of : Bool → ℕ
class_of unique = if unique then 0x8001 else 1

-- The writer after the header, and the offset of the length to patch: the data stand two bytes later.
unfoldable pub write_record_header : Writer → ℕ → ℕ → Bool → ℕ → Option (Writer × ℕ)
write_record_header w owner type unique ttl = do
  w ← write_pointer w owner
  w ← write_u16 w type
  w ← write_u16 w (class_of unique)
  w ← write_u32 w ttl
  w' ← write_u16 w 0
  some (w', length w.written)

-- `patch_u16(&writer, length_offset, writer.offset - rdata_offset)`
unfoldable pub patch_length : Writer → ℕ → Option Writer
patch_length w at = patch_u16 w at ((length w.written - (at + 2)) % 65536)

unfoldable pub write_header : Writer → ℕ → Option Writer
write_header w id = do
  w ← write_u16 w id
  w ← write_u16 w 0x8400
  w ← write_u16 w 0
  w ← write_u16 w 4
  w ← write_u16 w 0
  write_u16 w 0

-- The PTR record: the writer, and the offset of the instance's name.
unfoldable pub write_ptr : Writer → Service → ℕ → Option (Writer × ℕ)
write_ptr w s ttl = do
  let service_offset = length w.written
  w ← write_name w (full_service_name s)
  w ← write_u16 w type_ptr
  w ← write_u16 w 1
  w ← write_u32 w ttl
  let length_offset = length w.written
  w ← write_u16 w 0
  let instance_offset = length w.written
  w ← write_label w s.instance_name
  w ← write_pointer w service_offset
  w ← patch_length w length_offset
  some (w, instance_offset)

-- The SRV record: the writer, and the offset of the host's name.
unfoldable pub write_srv : Writer → Service → Bytes → ℕ → ℕ → Option (Writer × ℕ)
write_srv w s host_full owner ttl = do
  (w, length_offset) ← write_record_header w owner type_srv true ttl
  w ← write_u16 w 0
  w ← write_u16 w 0
  w ← write_u16 w s.port
  let host_offset = length w.written
  w ← write_name w host_full
  w ← patch_length w length_offset
  some (w, host_offset)

-- The TXT and A records: a header, the data and the patched length.
unfoldable pub write_data_record : Writer → Bytes → ℕ → ℕ → ℕ → Option Writer
write_data_record w bytes type owner ttl = do
  (w, length_offset) ← write_record_header w owner type true ttl
  w ← write_bytes w bytes
  patch_length w length_offset

-- `build_record_set`; the bytes of the packet up to `output_size`.
unfoldable pub build_record_set : Service → ℕ → ℕ → Option Bytes
build_record_set s id ttl = if not (service_valid s) then none else (do
  instance_full ← make_instance_full s
  host_full ← make_host_full s
  w ← write_header (record { capacity = packet_max; written = [] }) id
  (w, instance_offset) ← write_ptr w s ttl
  (w, host_offset) ← write_srv w s host_full instance_offset ttl
  w ← write_data_record w (txt_bytes s) type_txt instance_offset ttl
  w ← write_data_record w (address_bytes s.ipv4_address) type_a host_offset ttl
  some w.written)

unfoldable pub build_announcement : Service → ℕ → Option Bytes
build_announcement s ttl = build_record_set s 0 ttl
