-- ===== src/Airplay/Dns/Safety.antt =====
-- source/protocol/airplay/discovery/dns.c: no packet from the network makes the parser read beyond it
-- or loop for ever.
use Prim.Native.Nat.{bit_and}
use nx_cast.Base.{
  ℕ, zero, suc, ◌+◌, ◌-◌, ◌≤◌, ◌≢◌, arith, Bool, false, not, ◌&&◌, Option, some, none,
  if◌then◌else◌, ltb, ◌==◌, length,
}
use nx_cast.Base.Text.{Bytes}
use nx_cast.Airplay.Dns.Reads.{
  Reads, ok, refused, fault, Ensures, holds, declined, Ensures-fault, Ensures-if, Ensures-bind,
  Ensures-require, slice-Ensures, read_u16-Ensures,
}
use nx_cast.Airplay.Dns.Names.{read_name-Ensures}
use nx_cast.Airplay.Dns.Records.{
  Service, service_valid, type_a, type_txt, type_srv, make_host_full, make_instance_full,
  address_bytes, txt_bytes, build_record_set,
}
use nx_cast.Airplay.Dns.Queries.{
  given, FullNames, name_matches, note_question, read_questions, names_of, size_ok,
  build_query_response, skip_loop, skip_questions, or_false, srv_rdata_matches, differs,
  record_conflicts, read_records, packet_conflicts,
}

abbrev Safe {ℓ} : {A : Type ℓ} → Reads A → Type ℓ
Safe {A} r = Ensures (λ (a : A). Unit {0}) r

given-Safe {ℓ} : {A : Type ℓ} (o : Option A) → Safe (given o)
given-Safe none = declined
given-Safe (some a) = holds tt

or_false-Safe : (r : Reads Bool) → Safe r → Safe (or_false r)
or_false-Safe (ok b) s = holds tt
or_false-Safe refused s = holds tt
or_false-Safe fault s = s

read_questions-Safe :
    (count : ℕ) (n : FullNames) (query : Bytes) (offset : ℕ) (seen : Bool × Bool)
    → Safe (read_questions count n query offset seen)
unfolding read_questions
read_questions-Safe zero n query offset seen = holds tt
read_questions-Safe (suc count) n query offset seen =
    Ensures-bind (read_name-Ensures query offset) λ (name, at) (short, inside).
      Ensures-require (not (ltb (length query) at) && not (ltb (length query - at) 4)) λ room.
        Ensures-bind (read_u16-Ensures query at (ground arith)) λ type _.
          Ensures-bind (read_u16-Ensures query (at + 2) (ground arith)) λ dns_class _.
            read_questions-Safe count n query (at + 4) (note_question n name type dns_class seen)

names_of-Safe : (s : Service) → Safe (names_of s)
names_of-Safe s =
    Ensures-bind (given-Safe (make_instance_full s))
      λ i _. Ensures-bind (given-Safe (make_host_full s)) λ h _. holds tt

build_query_response-Safe :
    (s : Service) (query : Bytes) (ttl : ℕ) → Safe (build_query_response s query ttl)
unfolding build_query_response
build_query_response-Safe s query ttl = Ensures-require (service_valid s && size_ok query) λ v.
    Ensures-bind (names_of-Safe s) λ n _.
      Ensures-bind (read_u16-Ensures query 0 (ground arith)) λ id _.
        Ensures-bind (read_u16-Ensures query 2 (ground arith)) λ flags _.
          Ensures-bind (read_u16-Ensures query 4 (ground arith)) λ count _.
            Ensures-require (bit_and flags 0x8000 == 0 && not (count == 0) && not (ltb 32 count))
              λ _.
                Ensures-bind (read_questions-Safe count n query 12 (false, false))
                  λ (relevant, unicast) _. Ensures-require relevant λ _.
                    Ensures-bind (given-Safe (build_record_set s (if unicast then id else 0) ttl))
                      λ packet _. holds tt

skip_loop-Safe : (count : ℕ) (packet : Bytes) (offset : ℕ) → Safe (skip_loop count packet offset)
unfolding skip_loop
skip_loop-Safe zero packet offset = holds tt
skip_loop-Safe (suc count) packet offset =
    Ensures-bind (read_name-Ensures packet offset) λ (name, at) _.
      Ensures-require (not (ltb (length packet) at) && not (ltb (length packet - at) 4))
        λ _. skip_loop-Safe count packet (at + 4)

skip_questions-Safe :
    (packet : Bytes) (count offset : ℕ) → Safe (skip_questions packet count offset)
unfolding skip_questions
skip_questions-Safe packet count offset =
    Ensures-if (ltb 32 count) (λ _. declined) (λ _. skip_loop-Safe count packet offset)

srv_rdata_matches-Safe :
    (s : Service) (packet : Bytes) (at size : ℕ) → Safe (srv_rdata_matches s packet at size)
unfolding srv_rdata_matches
srv_rdata_matches-Safe s packet at size = or_false-Safe _ (
    Ensures-require
      (not (ltb size 7) && not (ltb (length packet) at) && not (ltb (length packet - at) size))
      λ room. Ensures-bind (read_u16-Ensures packet at (ground arith)) λ priority _.
        Ensures-require (priority == 0) λ _.
          Ensures-bind (read_u16-Ensures packet (at + 2) (ground arith)) λ weight _.
            Ensures-require (weight == 0) λ _.
              Ensures-bind (read_u16-Ensures packet (at + 4) (ground arith)) λ port _.
                Ensures-require (port == s.port) λ _.
                  Ensures-bind (given-Safe (make_host_full s)) λ host _.
                    Ensures-bind (read_name-Ensures packet (at + 6)) λ (target, target_at) _.
                      Ensures-require (target_at == at + size) λ _. holds tt)

differs-Safe :
    (packet : Bytes) (at size : ℕ) (bytes : Bytes) (n : ℕ)
    → at + size ≤ length packet
    → Safe (differs packet at size bytes n)
unfolding differs
differs-Safe packet at size bytes n h =
    Ensures-if (not (size == n)) (λ _. holds tt)
      λ e. Ensures-bind (slice-Ensures packet at n (ground arith)) λ found _. holds tt

record_conflicts-Safe :
    (s : Service) (n : FullNames) (packet owner : Bytes) (type at size : ℕ)
    → at + size ≤ length packet
    → Safe (record_conflicts s n packet owner type at size)
unfolding record_conflicts
record_conflicts-Safe s n packet owner type at size h =
    Ensures-if (name_matches owner n.host_full && type == type_a)
      (λ _. differs-Safe packet at size (address_bytes s.ipv4_address) 4 h)
      λ _.
        Ensures-if (name_matches owner n.instance_full && type == type_txt)
          (λ _. differs-Safe packet at size (txt_bytes s) s.txt_size h)
          λ _.
            Ensures-if (name_matches owner n.instance_full && type == type_srv)
              (λ _. Ensures-bind (srv_rdata_matches-Safe s packet at size) λ same _. holds tt)
              λ _. holds tt

read_records-Safe :
    (count : ℕ) (s : Service) (n : FullNames) (packet : Bytes) (offset : ℕ)
    → Safe (read_records count s n packet offset)
unfolding read_records
read_records-Safe zero s n packet offset = holds tt
read_records-Safe (suc count) s n packet offset =
    Ensures-bind (read_name-Ensures packet offset) λ (owner, at) (short, inside).
      Ensures-require (not (ltb (length packet) at) && not (ltb (length packet - at) 10)) λ room.
        Ensures-bind (read_u16-Ensures packet at (ground arith)) λ type _.
          Ensures-bind (read_u16-Ensures packet (at + 8) (ground arith)) λ size _.
            Ensures-require (not (ltb (length packet - (at + 10)) size)) λ fits.
              Ensures-bind
                (record_conflicts-Safe s n packet owner type (at + 10) size (ground arith))
                λ conflict _.
                  Ensures-if conflict (λ _. holds tt)
                    λ _. read_records-Safe count s n packet (at + 10 + size)

packet_conflicts-Safe : (s : Service) (packet : Bytes) → Safe (packet_conflicts s packet)
unfolding packet_conflicts
packet_conflicts-Safe s packet = or_false-Safe _ (
    Ensures-require (service_valid s && size_ok packet) λ v. Ensures-bind (names_of-Safe s) λ n _.
      Ensures-bind (read_u16-Ensures packet 4 (ground arith)) λ questions _.
        Ensures-bind (read_u16-Ensures packet 6 (ground arith)) λ answers _.
          Ensures-bind (read_u16-Ensures packet 8 (ground arith)) λ authorities _.
            Ensures-bind (read_u16-Ensures packet 10 (ground arith)) λ additional _.
              Ensures-require (not (ltb 64 (answers + authorities + additional))) λ _.
                Ensures-bind (skip_questions-Safe packet questions 12) λ offset _.
                  read_records-Safe (answers + authorities + additional) s n packet offset)

-- For any service and any packet from the network, of any length, answering it as a query and testing it
-- for conflicts end without a read beyond the packet's bytes.
pub packets_never_fault :
    (s : Service) (packet : Bytes) (ttl : ℕ)
    → (build_query_response s packet ttl ≢ fault) × (packet_conflicts s packet ≢ fault)
packets_never_fault s packet ttl = (
  Ensures-fault (build_query_response-Safe s packet ttl),
  Ensures-fault (packet_conflicts-Safe s packet),
)
