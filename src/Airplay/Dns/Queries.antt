-- ===== src/Airplay/Dns/Queries.antt =====
-- source/protocol/airplay/discovery/dns.c: what the receiver does with a packet from the network, the
-- answer to a query and the test for a conflicting record.
use Prim.Native.Nat.{bit_and}
use nx_cast.Base.{
  ℕ, zero, suc, ◌+◌, ◌-◌, Bool, true, false, not, ◌&&◌, ◌||◌, Option, some, none, [], ◌∷◌,
  if◌then◌else◌, leb, ltb, ◌==◌, length,
}
use nx_cast.Base.Text.{Bytes, bytes_eq}
use nx_cast.Airplay.Dns.Reads.{Reads, ok, refused, fault, ◌>>=◌, ◌>>◌, require, slice, read_u16}
use nx_cast.Airplay.Dns.Writer.{packet_max}
use nx_cast.Airplay.Dns.Names.{read_name}
use nx_cast.Airplay.Dns.Records.{
  Service, type_a, type_ptr, type_txt, type_srv, type_any, service_valid, full_service_name,
  make_instance_full, make_host_full, address_bytes, txt_bytes, build_record_set,
}

abbrev lower : ℕ → ℕ
lower c = if leb b'A' c && leb c b'Z' then c + 32 else c

-- The C string that starts here is empty.
at_end : Bytes → Bool
at_end [] = true
at_end (x ∷ xs) = x == 0

-- `strcasecmp(left, right) == 0` in the C locale. It stops at a NUL, which a label of a packet may hold.
unfoldable pub name_matches : Bytes → Bytes → Bool
unfolding at_end
name_matches [] ys = at_end ys
name_matches (x ∷ xs) [] = x == 0
name_matches (x ∷ xs) (y ∷ ys) = lower x == lower y && (x == 0 || name_matches xs ys)

-- A step that returns false where the name does not fit.
abbrev pub given {ℓ} : {A : Type ℓ} → Option A → Reads A
given none = refused
given (some a) = ok a

-- The names of a service that a packet may ask for.
pub record FullNames : Type 0 where
  pub service_full : Bytes
  pub instance_full : Bytes
  pub host_full : Bytes

unfoldable pub question_relevant : FullNames → Bytes → ℕ → Bool
question_relevant n name type =
    if name_matches name n.service_full && (type == type_ptr || type == type_any)
    then true
    else if name_matches name n.instance_full
        && (type == type_srv || type == type_txt || type == type_any)
    then true
    else name_matches name n.host_full && (type == type_a || type == type_any)

-- What one question does to `relevant` and `unicast`.
unfoldable pub note_question : FullNames → Bytes → ℕ → ℕ → Bool × Bool → Bool × Bool
note_question n name type dns_class (relevant, unicast) =
    if not (bit_and dns_class 0x7fff == 1) then (relevant, unicast) else (
      relevant || question_relevant n name type,
      unicast || (question_relevant n name type && not (bit_and dns_class 0x8000 == 0)),
    )

-- The loop over the questions, `count` of them left, from `offset` on.
unfoldable pub read_questions :
    (count : ℕ) → FullNames → Bytes → ℕ → Bool × Bool → Reads (Bool × Bool)
read_questions zero n query offset seen = ok seen
read_questions (suc count) n query offset seen = do
  (name, offset) ← read_name query offset
  require (not (ltb (length query) offset) && not (ltb (length query - offset) 4))
  type ← read_u16 query offset
  dns_class ← read_u16 query (offset + 2)
  read_questions count n query (offset + 4) (note_question n name type dns_class seen)

abbrev pub header_size : ℕ
header_size = 12

abbrev pub names_of : Service → Reads FullNames
names_of s = do
  instance_full ← given (make_instance_full s)
  host_full ← given (make_host_full s)
  ok (record {
    service_full = full_service_name s;
    instance_full = instance_full;
    host_full = host_full;
  })

abbrev pub size_ok : Bytes → Bool
size_ok packet = not (ltb (length packet) header_size) && not (ltb packet_max (length packet))

-- The response, and whether it goes to the asker alone.
unfoldable pub build_query_response : Service → Bytes → ℕ → Reads (Bytes × Bool)
build_query_response s query ttl = do
  require (service_valid s && size_ok query)
  n ← names_of s
  id ← read_u16 query 0
  flags ← read_u16 query 2
  question_count ← read_u16 query 4
  require (bit_and flags 0x8000 == 0 && not (question_count == 0) && not (ltb 32 question_count))
  (relevant, unicast) ← read_questions question_count n query header_size (false, false)
  require relevant
  packet ← given (build_record_set s (if unicast then id else 0) ttl)
  ok (packet, unicast)

-- The loop of `skip_questions`, which gives the offset after them.
unfoldable pub skip_loop : (count : ℕ) → Bytes → ℕ → Reads ℕ
skip_loop zero packet offset = ok offset
skip_loop (suc count) packet offset = do
  (name, offset) ← read_name packet offset
  require (not (ltb (length packet) offset) && not (ltb (length packet - offset) 4))
  skip_loop count packet (offset + 4)

unfoldable pub skip_questions : Bytes → ℕ → ℕ → Reads ℕ
skip_questions packet count offset = if ltb 32 count then refused else skip_loop count packet offset

-- A refusal inside the code's test is its answer false.
abbrev pub or_false : Reads Bool → Reads Bool
or_false (ok b) = ok b
or_false refused = ok false
or_false fault = fault

unfoldable pub srv_rdata_matches : Service → Bytes → ℕ → ℕ → Reads Bool
srv_rdata_matches s packet rdata_offset rdata_size = or_false (do
  require (
      not (ltb rdata_size 7)
      && not (ltb (length packet) rdata_offset)
      && not (ltb (length packet - rdata_offset) rdata_size))
  priority ← read_u16 packet rdata_offset
  require (priority == 0)
  weight ← read_u16 packet (rdata_offset + 2)
  require (weight == 0)
  port ← read_u16 packet (rdata_offset + 4)
  require (port == s.port)
  host_full ← given (make_host_full s)
  (target, target_offset) ← read_name packet (rdata_offset + 6)
  require (target_offset == rdata_offset + rdata_size)
  ok (name_matches target host_full))

-- `size != bytes_size || memcmp(packet + offset, bytes, bytes_size) != 0`
unfoldable pub differs : Bytes → ℕ → ℕ → Bytes → ℕ → Reads Bool
differs packet offset size bytes bytes_size =
    if not (size == bytes_size)
    then ok true
    else slice packet offset bytes_size >>= λ found. ok (not (bytes_eq found bytes))

-- Whether one record contradicts the service's own.
unfoldable pub record_conflicts : Service → FullNames → Bytes → Bytes → ℕ → ℕ → ℕ → Reads Bool
record_conflicts s n packet owner type rdata_offset rdata_size =
    if name_matches owner n.host_full && type == type_a
    then differs packet rdata_offset rdata_size (address_bytes s.ipv4_address) 4
    else if name_matches owner n.instance_full && type == type_txt
    then differs packet rdata_offset rdata_size (txt_bytes s) s.txt_size
    else if name_matches owner n.instance_full && type == type_srv
    then (srv_rdata_matches s packet rdata_offset rdata_size >>= λ same. ok (not same))
    else ok false

-- The loop over the records, `count` of them left.
unfoldable pub read_records : (count : ℕ) → Service → FullNames → Bytes → ℕ → Reads Bool
read_records zero s n packet offset = ok false
read_records (suc count) s n packet offset = do
  (owner, offset) ← read_name packet offset
  require (not (ltb (length packet) offset) && not (ltb (length packet - offset) 10))
  type ← read_u16 packet offset
  rdata_size ← read_u16 packet (offset + 8)
  require (not (ltb (length packet - (offset + 10)) rdata_size))
  conflict ← record_conflicts s n packet owner type (offset + 10) rdata_size
  if conflict then ok true else read_records count s n packet (offset + 10 + rdata_size)

unfoldable pub packet_conflicts : Service → Bytes → Reads Bool
packet_conflicts s packet = or_false (do
  require (service_valid s && size_ok packet)
  n ← names_of s
  questions ← read_u16 packet 4
  answers ← read_u16 packet 6
  authorities ← read_u16 packet 8
  additional ← read_u16 packet 10
  require (not (ltb 64 (answers + authorities + additional)))
  offset ← skip_questions packet questions header_size
  read_records (answers + authorities + additional) s n packet offset)
