-- ===== src/Airplay/Dns/Packets.antt =====
-- source/protocol/airplay/discovery/dns.c: what the writer puts out are bytes, and no more than fit.
use Prim.Native.Nat.{bit_or}
use nx_cast.Base.{
  ℕ, zero, suc, ◌+◌, ◌-◌, ◌/◌, ◌%◌, ◌≤◌, ◌<◌, ◌≡◌, refl, subst, Bool, true, false, not, ◌&&◌, ◌||◌,
  Option, some, none, [], ◌∷◌, ◌++◌, arith, if◌then◌else◌, leb, ltb, ◌==◌, Bool-cases, inl, inr,
  length, take, set, length-append, length-set,
}
use nx_cast.Base.Text.{Bytes}
use nx_cast.Airplay.Dns.Writer.{
  Writer, ◌>>=◌, name_max, packet_max, write_bytes, write_u8, write_u16, write_u32, patch_u16,
  write_label, end_label, write_labels, write_name, write_pointer,
}
use nx_cast.Airplay.Dns.Records.{
  Service, class_of, type_a, type_txt, service_valid, full_service_name, make_instance_full,
  make_host_full, local_suffix, address_bytes, txt_bytes, write_record_header, patch_length,
  write_header, write_ptr, write_srv, write_data_record, build_record_set,
}

-- Every element is a byte.
abbrev pub IsBytes : Bytes → Type 0
IsBytes [] = Unit
IsBytes (b ∷ bs) = (b < 256) × IsBytes bs

append-IsBytes : (xs ys : Bytes) → IsBytes xs → IsBytes ys → IsBytes (xs ++ ys)
append-IsBytes [] ys h k = k
append-IsBytes (x ∷ xs) ys h k = (h.0, append-IsBytes xs ys h.1 k)

take-IsBytes : (n : ℕ) (xs : Bytes) → IsBytes xs → IsBytes (take n xs)
take-IsBytes zero xs h = tt
take-IsBytes (suc n) [] h = tt
take-IsBytes (suc n) (x ∷ xs) h = (h.0, take-IsBytes n xs h.1)

set-IsBytes : (xs : Bytes) (i v : ℕ) → IsBytes xs → v < 256 → IsBytes (set xs i v)
set-IsBytes [] i v h k = tt
set-IsBytes (x ∷ xs) zero v h k = (k, h.1)
set-IsBytes (x ∷ xs) (suc i) v h k = (h.0, set-IsBytes xs i v h.1 k)

-- The writer of a packet.
pub record IsPacket (w : Writer) : Type 0 where
  pub capacity : w.capacity ≡ packet_max
  pub size : length w.written ≤ packet_max
  pub bytes : IsBytes w.written

-- The chain failed, or `P` holds of what it gave.
data Gives {ℓ κ} {A : Type ℓ} (P : A → Type κ) : Option A → Type (ℓ ⊔ κ) where
  nothing : Gives P none
  just : {a : A} → P a → Gives P (some a)

Gives-some {ℓ κ} :
    {A : Type ℓ} {P : A → Type κ} {m : Option A} {a : A} → Gives P m → m ≡ some a → P a
Gives-some nothing e = cc
Gives-some {P = P} (just h) e = subst P (cc) h

Gives-bind {ℓ κ ℓ' κ'} :
    {A : Type ℓ} {P : A → Type κ} {B : Type ℓ'} {Q : B → Type κ'} {m : Option A} {f : A → Option B}
    → Gives P m
    → ((a : A) → P a → Gives Q (f a))
    → Gives Q (m >>= f)
Gives-bind nothing k = nothing
Gives-bind (just {a} h) k = k a h

Gives-if {ℓ κ} :
    {A : Type ℓ} {P : A → Type κ} (b : Bool) (x : Option A)
    → Gives P x
    → Gives P (if b then none else x)
Gives-if true x h = nothing
Gives-if false x h = h

abbrev Writes : Option Writer → Type 0
Writes = Gives IsPacket

write_bytes-Writes :
    (w : Writer) (bytes : Bytes) → IsPacket w → IsBytes bytes → Writes (write_bytes w bytes)
unfolding write_bytes
write_bytes-Writes w bytes v b =
    elim (Bool-cases
      (ltb w.capacity (length w.written) || ltb (w.capacity - length w.written) (length bytes))) [
        | inl e ↦ rw e nothing
        | inr e ↦ rw e (
            just (record {
              capacity = v.capacity;
              size = ground (arith, length-append w.written bytes, v.capacity);
              bytes = append-IsBytes w.written bytes v.bytes b;
            }))
      ]

write_u8-Writes : (w : Writer) (value : ℕ) → IsPacket w → Writes (write_u8 w value)
unfolding write_u8
write_u8-Writes w value v = write_bytes-Writes w _ v (omega arith)

write_u16-Writes : (w : Writer) (value : ℕ) → IsPacket w → Writes (write_u16 w value)
unfolding write_u16
write_u16-Writes w value v = write_bytes-Writes w _ v (omega arith)

write_u32-Writes : (w : Writer) (value : ℕ) → IsPacket w → Writes (write_u32 w value)
unfolding write_u32
write_u32-Writes w value v = write_bytes-Writes w _ v (omega arith)

patch_u16-Writes : (w : Writer) (offset value : ℕ) → IsPacket w → Writes (patch_u16 w offset value)
unfolding patch_u16
patch_u16-Writes w offset value v =
    Gives-if
      (ltb w.capacity offset
        || ltb (length w.written) offset
        || ltb (w.capacity - offset) 2
        || ltb (length w.written - offset) 2)
      _
      (just (record {
        capacity = v.capacity;
        size = omega (
          arith,
          length-set (set w.written offset (value / 256 % 256)) (offset + 1) (value % 256),
          length-set w.written offset (value / 256 % 256),
          v.size,
        );
        bytes =
            set-IsBytes (set w.written offset (value / 256 % 256)) (offset + 1) (value % 256)
              (set-IsBytes w.written offset (value / 256 % 256) v.bytes (omega arith))
              (omega arith);
      }))

write_label-Writes :
    (w : Writer) (label : Bytes) → IsPacket w → IsBytes label → Writes (write_label w label)
unfolding write_label
write_label-Writes w label v b = elim (Bool-cases (ltb 0 (length label) && leb (length label) 63)) [
  | inl e ↦
      rw e (Gives-bind (write_u8-Writes w (length label) v) λ u h. write_bytes-Writes u label h b)
  | inr e ↦ rw e nothing
]

end_label-Writes :
    (w : Writer) (label : Bytes) (total : ℕ)
    → IsPacket w
    → IsBytes label
    → Writes (end_label w label total)
unfolding end_label
end_label-Writes w label total v b =
    Gives-bind (write_label-Writes w label v b)
      λ u h. Gives-if (ltb name_max total) (some u) (just h)

write_labels-Writes :
    (name label : Bytes) (w : Writer) (total : ℕ)
    → IsPacket w
    → IsBytes label
    → IsBytes name
    → Writes (write_labels w label name total)
unfolding write_labels
write_labels-Writes [] label w total v b n =
    Gives-bind (end_label-Writes w label (total + length label + 1) v b)
      λ u h. write_u8-Writes u 0 h
write_labels-Writes (c ∷ name) label w total v b n = elim (Bool-cases (c == b'.')) [
  | inl e ↦ rw e (
      Gives-bind (end_label-Writes w label (total + length label + 1) v b)
        λ u h. write_labels-Writes name [] u (total + length label + 1) h tt n.1)
  | inr e ↦ rw e (
      write_labels-Writes name (label ++ (c ∷ [])) w total v
        (append-IsBytes label (c ∷ []) b (n.0, tt)) n.1)
]

write_name-Writes :
    (w : Writer) (name : Bytes) → IsPacket w → IsBytes name → Writes (write_name w name)
unfolding write_name
write_name-Writes w [] v n = nothing
write_name-Writes w (c ∷ name) v n = write_labels-Writes (c ∷ name) [] w 1 v tt n

write_pointer-Writes : (w : Writer) (offset : ℕ) → IsPacket w → Writes (write_pointer w offset)
unfolding write_pointer
write_pointer-Writes w offset v = elim (Bool-cases (ltb offset 0xc000)) [
  | inl e ↦ rw e (write_u16-Writes w (bit_or 0xc000 offset) v)
  | inr e ↦ rw e nothing
]

abbrev WritesAt : Option (Writer × ℕ) → Type 0
WritesAt = Gives (λ (r : Writer × ℕ). IsPacket r.0)

write_record_header-Writes :
    (w : Writer) (owner type : ℕ) (unique : Bool) (ttl : ℕ)
    → IsPacket w
    → WritesAt (write_record_header w owner type unique ttl)
unfolding write_record_header
write_record_header-Writes w owner type unique ttl v =
    Gives-bind (write_pointer-Writes w owner v) λ w v. Gives-bind (write_u16-Writes w type v) λ w v.
      Gives-bind (write_u16-Writes w (class_of unique) v) λ w v.
        Gives-bind (write_u32-Writes w ttl v)
          λ w v. Gives-bind (write_u16-Writes w 0 v) λ w v. just v

patch_length-Writes : (w : Writer) (at : ℕ) → IsPacket w → Writes (patch_length w at)
unfolding patch_length
patch_length-Writes w at v = patch_u16-Writes w at ((length w.written - (at + 2)) % 65536) v

write_header-Writes : (w : Writer) (id : ℕ) → IsPacket w → Writes (write_header w id)
unfolding write_header
write_header-Writes w id v = Gives-bind (write_u16-Writes w id v) λ w v.
    Gives-bind (write_u16-Writes w 0x8400 v) λ w v. Gives-bind (write_u16-Writes w 0 v) λ w v.
      Gives-bind (write_u16-Writes w 4 v)
        λ w v. Gives-bind (write_u16-Writes w 0 v) λ w v. write_u16-Writes w 0 v

-- The texts of a service are bytes.
pub record IsService (s : Service) : Type 0 where
  pub service_bytes : IsBytes s.service_name
  pub instance_bytes : IsBytes s.instance_name
  pub host_bytes : IsBytes s.host_name
  pub txt_are_bytes : IsBytes s.txt

full_service_name-IsBytes : (s : Service) → IsService s → IsBytes (full_service_name s)
unfolding full_service_name
full_service_name-IsBytes s v = elim (Bool-cases (ltb 0 (length s.service_name))) [
  | inl e ↦ rw e v.service_bytes
  | inr e ↦ rw e (omega arith)
]

make_host_full-IsBytes : (s : Service) → IsService s → Gives IsBytes (make_host_full s)
unfolding make_host_full
make_host_full-IsBytes s v =
    Gives-if
      (length s.host_name == 0
        || ltb 63 (length s.host_name)
        || ltb name_max (length s.host_name + 6))
      _ (just (append-IsBytes s.host_name local_suffix v.host_bytes (omega arith)))

write_ptr-Writes :
    (w : Writer) (s : Service) (ttl : ℕ) → IsService s → IsPacket w → WritesAt (write_ptr w s ttl)
unfolding write_ptr
write_ptr-Writes w s ttl k v =
    let start = length w.written in
    Gives-bind (write_name-Writes w (full_service_name s) v (full_service_name-IsBytes s k)) λ w v.
      Gives-bind (write_u16-Writes w 12 v) λ w v. Gives-bind (write_u16-Writes w 1 v) λ w v.
        Gives-bind (write_u32-Writes w ttl v) λ w v.
          let at = length w.written in
          Gives-bind (write_u16-Writes w 0 v) λ w v.
            Gives-bind (write_label-Writes w s.instance_name v k.instance_bytes) λ w v.
              Gives-bind (write_pointer-Writes w start v)
                λ w v. Gives-bind (patch_length-Writes w at v) λ w v. just v

write_srv-Writes :
    (w : Writer) (s : Service) (host : Bytes) (owner ttl : ℕ)
    → IsBytes host
    → IsPacket w
    → WritesAt (write_srv w s host owner ttl)
unfolding write_srv
write_srv-Writes w s host owner ttl k v =
    Gives-bind (write_record_header-Writes w owner 33 true ttl v) λ (w, at) v.
      Gives-bind (write_u16-Writes w 0 v) λ w v. Gives-bind (write_u16-Writes w 0 v) λ w v.
        Gives-bind (write_u16-Writes w s.port v) λ w v.
          Gives-bind (write_name-Writes w host v k)
            λ w v. Gives-bind (patch_length-Writes w at v) λ w v. just v

write_data_record-Writes :
    (w : Writer) (bytes : Bytes) (type owner ttl : ℕ)
    → IsBytes bytes
    → IsPacket w
    → Writes (write_data_record w bytes type owner ttl)
unfolding write_data_record
write_data_record-Writes w bytes type owner ttl k v =
    Gives-bind (write_record_header-Writes w owner type true ttl v)
      λ (w, at) v. Gives-bind (write_bytes-Writes w bytes v k) λ w v. patch_length-Writes w at v

-- What a packet on the wire is.
abbrev pub IsWire : Bytes → Type 0
IsWire packet = (length packet ≤ packet_max) × IsBytes packet

address_bytes-IsBytes : (a : ℕ) → IsBytes (address_bytes a)
unfolding address_bytes
address_bytes-IsBytes a = omega arith

given-Gives {ℓ κ} : {A : Type ℓ} (P : A → Type κ) (o : Option A) → ((a : A) → P a) → Gives P o
given-Gives P none h = nothing
given-Gives P (some a) h = just (h a)

build_record_set-Gives :
    (s : Service) (id ttl : ℕ) → IsService s → Gives IsWire (build_record_set s id ttl)
unfolding build_record_set
build_record_set-Gives s id ttl k = Gives-if (not (service_valid s)) _ (
    Gives-bind (given-Gives (λ (b : Bytes). Unit {0}) (make_instance_full s) (λ b. tt))
      λ instance _. Gives-bind (make_host_full-IsBytes s k) λ host hk.
        Gives-bind
          (write_header-Writes (record { capacity = packet_max; written = [] }) id
            (record { capacity = refl; size = omega arith; bytes = tt }))
          λ w v. Gives-bind (write_ptr-Writes w s ttl k v) λ (w, at) v.
            Gives-bind (write_srv-Writes w s host at ttl hk v) λ (w, host_at) v.
              Gives-bind
                (write_data_record-Writes w (txt_bytes s) type_txt at ttl
                  (take-IsBytes s.txt_size s.txt k.txt_are_bytes) v)
                λ w v.
                  Gives-bind
                    (write_data_record-Writes w (address_bytes s.ipv4_address) type_a host_at ttl
                      (address_bytes-IsBytes s.ipv4_address) v)
                    λ w v. just (v.size, v.bytes))

-- Any record set that is built for a service whose texts are bytes is a list of bytes, at most 1500.
pub build_record_set-IsWire :
    (s : Service) (id ttl : ℕ) (packet : Bytes)
    → IsService s
    → build_record_set s id ttl ≡ some packet
    → IsWire packet
build_record_set-IsWire s id ttl packet k h = Gives-some (build_record_set-Gives s id ttl k) h
