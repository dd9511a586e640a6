-- ===== src/Airplay/Dns/Tests.antt =====
-- DNS packets at concrete inputs.
use nx_cast.Base.{◌≡◌, ◌≢◌, refl, arith, some, [], ◌∷◌, ◌++◌}
use nx_cast.Base.Text.{Bytes, codes}
use nx_cast.Airplay.Dns.Reads.{ok, fault}
use nx_cast.Airplay.Dns.Writer.{
  Writer, write_name, write_labels, end_label, write_label, write_u8, write_u16, write_u32,
  write_bytes, patch_u16, write_pointer,
}
use nx_cast.Airplay.Dns.Names.{read_name}
use nx_cast.Airplay.Dns.Records.{
  Service, service_valid, make_instance_full, make_host_full, full_service_name, write_header,
  write_ptr, write_srv, write_data_record, write_record_header, patch_length, address_bytes,
  build_record_set,
}
use nx_cast.Airplay.Dns.Queries.{build_query_response, packet_conflicts}
use nx_cast.Airplay.Dns.Safety.{packets_never_fault}
use nx_cast.Airplay.Dns.RoundTrip.{read_name-write_name}
use nx_cast.Airplay.Dns.Packets.{IsWire, build_record_set-IsWire}

abbrev console : Service
console = record {
  service_name = [];
  instance_name = codes "NX";
  host_name = codes "nx";
  port = 7000;
  ipv4_address = 16885952;
  txt = 3 ∷ b'a' ∷ b'=' ∷ b'1' ∷ [];
  txt_size = 4;
}

-- A query whose name is a pointer to itself.
abbrev looping : Bytes
looping = 0 ∷ 7 ∷ 0 ∷ 0 ∷ 0 ∷ 1 ∷ 0 ∷ 0 ∷ 0 ∷ 0 ∷ 0 ∷ 0 ∷ 0xc0 ∷ 12 ∷ 0 ∷ 12 ∷ 0 ∷ 1 ∷ []

packets_never_fault_example :
    (build_query_response console looping 120 ≢ fault) × (packet_conflicts console looping ≢ fault)
packets_never_fault_example = packets_never_fault console looping 120

abbrev before : Writer
before = record { capacity = 40; written = 1 ∷ 2 ∷ 3 ∷ [] }

abbrev after : Writer
after = record {
  capacity = 40;
  written = 1 ∷ 2 ∷ 3 ∷ 2 ∷ b'n' ∷ b'x' ∷ 5 ∷ b'l' ∷ b'o' ∷ b'c' ∷ b'a' ∷ b'l' ∷ 0 ∷ [];
}

writes_name : write_name before (codes "nx.local") ≡ some after
unfolding write_name write_labels end_label write_label write_u8 write_bytes
writes_name = refl

read_name-write_name_example : read_name (after.written ++ 9 ∷ 9 ∷ []) 3 ≡ ok (codes "nx.local", 13)
read_name-write_name_example =
    read_name-write_name before (codes "nx.local") after (9 ∷ 9 ∷ []) writes_name

-- The announcement: a header and four records.
abbrev announcement : Bytes
announcement =
    0 ∷ 0 ∷ 0x84 ∷ 0 ∷ 0 ∷ 0 ∷ 0 ∷ 4 ∷ 0 ∷ 0 ∷ 0 ∷ 0 ∷ 8 ∷ codes "_airplay"
    ++ 4 ∷ codes "_tcp"
    ++ 5 ∷ codes "local"
    ++ 0 ∷ 0 ∷ 12 ∷ 0 ∷ 1 ∷ 0 ∷ 0 ∷ 0 ∷ 120 ∷ 0 ∷ 5 ∷ 2 ∷ codes "NX"
    ++ 0xc0
      ∷ 12
      ∷ 0xc0
      ∷ 43
      ∷ 0
      ∷ 33
      ∷ 0x80
      ∷ 1
      ∷ 0
      ∷ 0
      ∷ 0
      ∷ 120
      ∷ 0
      ∷ 16
      ∷ 0
      ∷ 0
      ∷ 0
      ∷ 0
      ∷ 0x1b
      ∷ 0x58
      ∷ 2
      ∷ codes "nx"
    ++ 5 ∷ codes "local"
    ++ 0 ∷ 0xc0 ∷ 43 ∷ 0 ∷ 16 ∷ 0x80 ∷ 1 ∷ 0 ∷ 0 ∷ 0 ∷ 120 ∷ 0 ∷ 4 ∷ 3 ∷ codes "a=1"
    ++ 0xc0 ∷ 66 ∷ 0 ∷ 1 ∷ 0x80 ∷ 1 ∷ 0 ∷ 0 ∷ 0 ∷ 120 ∷ 0 ∷ 4 ∷ 192 ∷ 168 ∷ 1 ∷ 1 ∷ []

announces : build_record_set console 0 120 ≡ some announcement
unfolding build_record_set service_valid make_instance_full make_host_full full_service_name
    write_header write_ptr write_srv write_data_record write_record_header patch_length
    address_bytes write_name write_labels end_label write_label write_u8 write_u16 write_u32
    write_bytes patch_u16 write_pointer
announces = refl

build_record_set-IsWire_example : IsWire announcement
build_record_set-IsWire_example =
    build_record_set-IsWire console 0 120 announcement
      (record {
        service_bytes = tt;
        instance_bytes = omega arith;
        host_bytes = omega arith;
        txt_are_bytes = omega arith;
      })
      announces
