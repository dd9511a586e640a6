-- ===== src/Airplay/Dns/RoundTrip.antt =====
-- source/protocol/airplay/discovery/dns.c: a name that the writer wrote reads back.
use Prim.Native.Nat.{bit_and}
use nx_cast.Base.{
  ℕ, zero, suc, ◌+◌, ◌-◌, ◌%◌, ◌≤◌, ◌<◌, ◌≡◌, refl, sym, ap, subst, ◌∙◌, Bool, true, false, not,
  ◌&&◌, ◌||◌, Option, some, none, List, [], ◌∷◌, ◌++◌, arith, if◌then◌else◌, leb, ltb, ◌==◌, ==_iff,
  Bool-cases, inl, inr, length, get_elem?, drop, length-append, length-drop, drop-append,
  take-append,
}
use mathlib.Core.List.{append_assoc, append-nil}
use nx_cast.Base.Text.{Bytes}
use nx_cast.Airplay.Dns.Reads.{ok, fault, byte_at, slice}
use nx_cast.Airplay.Dns.Writer.{
  Writer, >>=-eq-some, name_max, write_bytes, write_u8, write_label, end_label, write_labels,
  write_name,
}
use nx_cast.Airplay.Dns.Names.{is_pointer, add_label, name_loop, name_fuel, read_name}

-- What `read_name` has in its buffer after one more label.
unfoldable pub joined : Bytes → Bytes → Bytes
joined [] label = label
joined (c ∷ output) label = (c ∷ output) ++ b'.' ∷ label

suc-add : (n m : ℕ) → suc n + m ≡ suc (n + m)
suc-add n m = omega arith

drop-nil {ℓ} : {A : Type ℓ} (n : ℕ) → drop {A = A} n [] ≡ []
drop-nil zero = refl
drop-nil (suc n) = refl

drop-add {ℓ} : {A : Type ℓ} (n m : ℕ) (xs : List A) → drop (n + m) xs ≡ drop m (drop n xs)
drop-add zero m xs = ap (λ (k : ℕ). drop k xs) (omega arith)
drop-add (suc n) m [] = ap (λ (k : ℕ). drop k []) (suc-add n m) ∙ refl ∙ sym (drop-nil m)
drop-add (suc n) m (x ∷ xs) = ap (λ (k : ℕ). drop k (x ∷ xs)) (suc-add n m) ∙ drop-add n m xs

get_elem?-drop {ℓ} :
    {A : Type ℓ} (xs ys : List A) (i : ℕ) (y : A) → drop i xs ≡ y ∷ ys → get_elem? xs i ≡ some y
get_elem?-drop [] ys zero y h = cc
get_elem?-drop [] ys (suc i) y h = cc
get_elem?-drop (x ∷ xs) ys zero y h = cc
get_elem?-drop (x ∷ xs) ys (suc i) y h = get_elem?-drop xs ys i y h

byte_at-drop : (packet rest : Bytes) (i b : ℕ) → drop i packet ≡ b ∷ rest → byte_at packet i ≡ ok b
unfolding byte_at
byte_at-drop packet rest i b d = rw (get_elem?-drop packet rest i b d, byte_at) refl

-- A length byte without the two bits that mark a pointer.
abbrev plain : ℕ → Bool
plain size = not (is_pointer size) && bit_and size 0xc0 == 0

plain_upto : ℕ → Bool
plain_upto zero = plain 0
plain_upto (suc last) = if plain (suc last) then plain_upto last else false

plain_upto-le : (last size : ℕ) → plain_upto last ≡ true → size ≤ last → plain size ≡ true
unfolding plain_upto
plain_upto-le zero size t h = subst (λ (n : ℕ). plain n ≡ true) {x = 0} {y = size} (omega arith) t
plain_upto-le (suc last) size t h = elim (Bool-cases (plain (suc last))) [
  | inr e ↦ absurd (cc (rw e at t))
  | inl e ↦ elim (Bool-cases (leb size last)) [
    | inl k ↦ plain_upto-le last size (rw e at t) (ground arith)
    | inr k ↦ subst (λ (n : ℕ). plain n ≡ true) {x = suc last} {y = size} (ground arith) e
  ]
]

plain_sizes : plain_upto 63 ≡ true
unfolding plain_upto
plain_sizes = refl

-- A length of 63 at most has neither of the two high bits.
short_size : (size : ℕ) → size ≤ 63 → plain size ≡ true
short_size size h = plain_upto-le 63 size plain_sizes h

slice-drop :
    (packet : Bytes) (cursor : ℕ) (label rest : Bytes)
    → drop cursor packet ≡ label ++ rest
    → 0 < length label
    → slice packet cursor (length label) ≡ ok label
unfolding slice
slice-drop packet cursor label rest d n =
    let fits : leb (cursor + length label) (length packet) ≡ true =
      ground (arith, length-drop cursor packet, ap length d, length-append label rest) in
    rw (fits, d, take-append label rest) refl

dotted_joined :
    (output label : Bytes)
    → (if ltb 0 (length output) then output ++ (b'.' ∷ []) else output) ++ label
      ≡ joined output label
unfolding joined
dotted_joined [] label = refl
dotted_joined (c ∷ output) label =
    let some_output : ltb 0 (length (c ∷ output)) ≡ true = ground arith in
    rw some_output (append_assoc (c ∷ output) (b'.' ∷ []) label)

add_label-joined :
    (packet : Bytes) (cursor : ℕ) (label rest output : Bytes)
    → drop cursor packet ≡ label ++ rest
    → 0 < length label
    → length output + 1 + length label ≤ name_max
    → add_label packet cursor (length label) output ≡ ok (joined output label)
unfolding add_label
add_label-joined packet cursor label rest output d n l =
    let dotted = if ltb 0 (length output) then output ++ (b'.' ∷ []) else output in
    let short : not (ltb 0 (length output)) || ltb (length output) name_max ≡ true = ground arith in
    let fits : leb (length label) (name_max - length dotted) ≡ true =
      ground (arith, length-append output (b'.' ∷ [])) in
    rw (short, fits, slice-drop packet cursor label rest d n) (ap ok (dotted_joined output label))

-- A round over a label.
name_loop-label :
    (fuel : ℕ) (packet : Bytes) (cursor : ℕ) (label rest output : Bytes) (jumps : ℕ)
    (next : Option ℕ)
    → drop cursor packet ≡ length label ∷ label ++ rest
    → 0 < length label
    → length label ≤ 63
    → length output + 1 + length label ≤ name_max
    → name_loop (suc fuel) packet cursor output jumps next
      ≡ name_loop fuel packet (cursor + 1 + length label) (joined output label) jumps next
unfolding name_loop
name_loop-label fuel packet cursor label rest output jumps next d n s l =
    let size = length-drop cursor packet in
    let counted = ap length d in
    let inside : ltb cursor (length packet) ≡ true = ground (arith, size, counted) in
    let low = short_size (length label) s in
    let plain : is_pointer (length label) ≡ false = ground (arith, low) in
    let fits : bit_and (length label) 0xc0 == 0
          && leb (length label) 63
          && leb (length label) (length packet - (cursor + 1))
        ≡ true =
      ground (arith, low, size, counted, length-append label rest) in
    let more : (length label == 0) ≡ false = ground arith in
    rw
      (
        inside,
        byte_at-drop packet (label ++ rest) cursor (length label) d,
        plain,
        fits,
        more,
        add_label-joined packet (cursor + 1) label rest output
            (drop-add cursor 1 packet ∙ ap (drop 1) d) n l,
      )
      refl

-- The round at the name's end.
name_loop-end :
    (fuel : ℕ) (packet : Bytes) (cursor : ℕ) (rest output : Bytes) (jumps : ℕ)
    → drop cursor packet ≡ 0 ∷ rest
    → name_loop (suc fuel) packet cursor output jumps none ≡ ok (output, cursor + 1)
unfolding name_loop
name_loop-end fuel packet cursor rest output jumps d =
    let inside : ltb cursor (length packet) ≡ true =
      ground (arith, length-drop cursor packet, ap length d) in
    let none_missing : leb 0 (length packet - (cursor + 1)) ≡ true = ground arith in
    rw (inside, byte_at-drop packet rest cursor 0 d, none_missing) refl

write_bytes-some :
    (w : Writer) (bytes : Bytes) (w' : Writer)
    → write_bytes w bytes ≡ some w'
    → w'.written ≡ w.written ++ bytes
unfolding write_bytes
write_bytes-some w bytes w' h = ground arith

kept :
    (w w' : Writer) (total : ℕ) → (if ltb name_max total then none else some w) ≡ some w' → w ≡ w'
kept w w' total h = ground arith

-- What a label is on the wire.
record Labelled (w : Writer) (label : Bytes) (total : ℕ) (w' : Writer) : Type 0 where
  pos : 0 < length label
  short : length label ≤ 63
  fits : total ≤ name_max
  wire : w'.written ≡ w.written ++ length label ∷ label

write_label-wire :
    (w : Writer) (label : Bytes) (w' : Writer)
    → write_label w label ≡ some w'
    → (0 < length label) × (length label ≤ 63) × (w'.written ≡ w.written ++ length label ∷ label)
unfolding write_label write_u8
write_label-wire w label w' h = elim (Bool-cases (ltb 0 (length label) && leb (length label) 63)) [
  | inr e ↦ absurd (cc (rw e at h))
  | inl e ↦
      let (w1, one, two) =
        >>=-eq-some (write_bytes w ((length label % 256) ∷ [])) (λ u. write_bytes u label)
          (rw e at h) in
      let first = write_bytes-some w ((length label % 256) ∷ []) w1 one in
      let all = write_bytes-some w1 label w' two in
      let small : length label % 256 ≡ length label = ground arith in
      (
        ground arith,
        ground arith,
        all
            ∙ ap (λ (u : Bytes). u ++ label) first
            ∙ append_assoc w.written ((length label % 256) ∷ []) label
            ∙ ap (λ (n : ℕ). w.written ++ n ∷ label) small,
      )
]

end_label-Labelled :
    (w : Writer) (label : Bytes) (total : ℕ) (w' : Writer)
    → end_label w label total ≡ some w'
    → Labelled w label total w'
unfolding end_label
end_label-Labelled w label total w' h =
    let (w1, one, two) =
      >>=-eq-some (write_label w label) (λ u. if ltb name_max total then none else some u) h in
    let (p, s, e) = write_label-wire w label w1 one in
    record {
      pos = p;
      short = s;
      fits = ground arith;
      wire = ap (λ (u : Writer). u.written) (sym (kept w1 w' total two)) ∙ e;
    }

-- From wherever `e` stands in a packet, the reader adds `name` to what it has.
abbrev ReadsAs : Bytes → Bytes → ℕ → Type 0
ReadsAs e name total =
    (packet : Bytes) (cursor : ℕ) (rest output : Bytes) (fuel jumps : ℕ)
    → drop cursor packet ≡ e ++ rest
    → length output + 1 ≤ total
    → length e ≤ fuel
    → name_loop fuel packet cursor output jumps none ≡ ok (joined output name, cursor + length e)

length-joined :
    (output label : Bytes) → length (joined output label) ≤ length output + 1 + length label
unfolding joined
length-joined [] label = omega arith
length-joined (c ∷ output) label = omega (arith, length-append output (b'.' ∷ label))

joined-joined :
    (output label name : Bytes)
    → 0 < length label
    → joined (joined output label) name ≡ joined output (label ++ b'.' ∷ name)
unfolding joined
joined-joined output [] name h = absurd (omega arith)
joined-joined [] (c ∷ label) name h = refl
joined-joined (d ∷ output) (c ∷ label) name h =
    ap (◌∷◌ d) (append_assoc output (b'.' ∷ c ∷ label) (b'.' ∷ name))

-- The reader passes a written label.
past_label :
    (w w' : Writer) (label e name : Bytes) (total : ℕ)
    → Labelled w label (total + length label + 1) w'
    → ReadsAs e name (total + length label + 1)
    → ReadsAs (length label ∷ label ++ e) (label ++ b'.' ∷ name) total
past_label w w' label e name total v k packet cursor rest output zero jumps d o f =
    absurd (omega arith)
past_label w w' label e name total v k packet cursor rest output (suc fuel) jumps d o f =
    let regroup : drop cursor packet ≡ length label ∷ label ++ (e ++ rest) =
      d ∙ ap (◌∷◌ (length label)) (append_assoc label e rest) in
    let ahead : drop (cursor + 1 + length label) packet ≡ e ++ rest =
      drop-add (cursor + 1) (length label) packet
      ∙ ap (drop (length label)) (drop-add cursor 1 packet ∙ ap (drop 1) regroup)
      ∙ drop-append label (e ++ rest) in
    name_loop-label fuel packet cursor label (e ++ rest) output jumps none regroup v.pos v.short
      (fits_total v.fits)
    ∙ k packet (cursor + 1 + length label) rest (joined output label) fuel jumps ahead
        (omega (arith, length-joined output label)) (omega (arith, length-append label e, f))
    ∙ ap ok (λ i. (joined-joined output label name v.pos i, counted i))
  where
    fits_total : total + length label + 1 ≤ name_max → length output + 1 + length label ≤ name_max
    fits_total h = omega arith

    counted : cursor + 1 + length label + length e ≡ cursor + length (length label ∷ label ++ e)
    counted = omega (arith, length-append label e)

last_label :
    (w w' : Writer) (label : Bytes) (total : ℕ)
    → Labelled w label (total + length label + 1) w'
    → ReadsAs (length label ∷ label ++ (0 ∷ [])) label total
last_label w w' label total v packet cursor rest output zero jumps d o f = absurd (omega arith)
last_label w w' label total v packet cursor rest output (suc zero) jumps d o f =
    absurd (omega (arith, length-append label (0 ∷ []), v.pos))
last_label w w' label total v packet cursor rest output (suc (suc fuel)) jumps d o f =
    let regroup : drop cursor packet ≡ length label ∷ label ++ 0 ∷ rest =
      d ∙ ap (◌∷◌ (length label)) (append_assoc label (0 ∷ []) rest) in
    let ahead : drop (cursor + 1 + length label) packet ≡ 0 ∷ rest =
      drop-add (cursor + 1) (length label) packet
      ∙ ap (drop (length label)) (drop-add cursor 1 packet ∙ ap (drop 1) regroup)
      ∙ drop-append label (0 ∷ rest) in
    name_loop-label (suc fuel) packet cursor label (0 ∷ rest) output jumps none regroup v.pos
      v.short (fits_total v.fits)
    ∙ name_loop-end fuel packet (cursor + 1 + length label) rest (joined output label) jumps ahead
    ∙ ap ok (λ i. (joined output label, counted i))
  where
    fits_total : total + length label + 1 ≤ name_max → length output + 1 + length label ≤ name_max
    fits_total h = omega arith

    counted : cursor + 1 + length label + 1 ≡ cursor + length (length label ∷ label ++ (0 ∷ []))
    counted = omega (arith, length-append label (0 ∷ []))

-- What the loop writes from a label on, as the reader takes it.
write_labels-ReadsAs :
    (name label : Bytes) (w w' : Writer) (total : ℕ)
    → write_labels w label name total ≡ some w'
    → (e : Bytes) × (w'.written ≡ w.written ++ e) × ReadsAs e (label ++ name) total
unfolding write_labels
write_labels-ReadsAs [] label w w' total h =
    let (w1, one, two) =
      >>=-eq-some (end_label w label (total + length label + 1)) (λ u. write_u8 u 0) h in
    let v = end_label-Labelled w label (total + length label + 1) w1 one in
    (
      length label ∷ label ++ (0 ∷ []),
      write_bytes-some w1 (0 ∷ []) w' (unfold write_u8 in two)
          ∙ ap (λ (u : Bytes). u ++ (0 ∷ [])) v.wire
          ∙ append_assoc w.written (length label ∷ label) (0 ∷ []),
      subst (λ (n : Bytes). ReadsAs (length label ∷ label ++ (0 ∷ [])) n total)
          (sym (append-nil label)) (last_label w w1 label total v),
    )
write_labels-ReadsAs (c ∷ name) label w w' total h = elim (Bool-cases (c == b'.')) [
  | inl dot ↦
      let (w1, one, two) =
        >>=-eq-some (end_label w label (total + length label + 1))
          (λ u. write_labels u [] name (total + length label + 1)) (rw dot at h) in
      let v = end_label-Labelled w label (total + length label + 1) w1 one in
      let (e, wire, reads) = write_labels-ReadsAs name [] w1 w' (total + length label + 1) two in
      (
        length label ∷ label ++ e,
        wire ∙ ap (λ (u : Bytes). u ++ e) v.wire ∙ append_assoc w.written (length label ∷ label) e,
        subst (λ (n : ℕ). ReadsAs (length label ∷ label ++ e) (label ++ n ∷ name) total)
            (sym ((==_iff c b'.').0 dot)) (past_label w w1 label e name total v reads),
      )
  | inr other ↦
      let (e, wire, reads) =
        write_labels-ReadsAs name (label ++ (c ∷ [])) w w' total (rw other at h) in
      (e, wire, subst (λ (n : Bytes). ReadsAs e n total) (append_assoc label (c ∷ []) name) reads)
]

name_loop-zero :
    (packet output : Bytes) (cursor jumps : ℕ) (next : Option ℕ)
    → name_loop zero packet cursor output jumps next ≡ fault
unfolding name_loop
name_loop-zero packet output cursor jumps next = refl

-- What reads as a name is not empty.
ReadsAs-pos :
    (e name : Bytes) (total cursor : ℕ) (packet rest : Bytes)
    → drop cursor packet ≡ e ++ rest
    → ReadsAs e name (suc total)
    → 0 < length e
ReadsAs-pos [] name total cursor packet rest d k = absurd (
    cc (
      k packet cursor rest [] zero zero d (omega arith) (omega arith),
      name_loop-zero packet [] cursor zero none,
    ))
ReadsAs-pos (b ∷ e) name total cursor packet rest d k = omega arith

-- A name that `write_name` wrote without a failure is what `read_name` reads at its offset, whatever
-- stands before and after it in the packet, and the offset then is where the writer stopped.
pub read_name-write_name :
    (w : Writer) (name : Bytes) (w' : Writer) (rest : Bytes)
    → write_name w name ≡ some w'
    → read_name (w'.written ++ rest) (length w.written) ≡ ok (name, length w'.written)
unfolding write_name read_name joined
read_name-write_name w [] w' rest h = cc
read_name-write_name w (c ∷ name) w' rest h =
    let (e, wire, reads) = write_labels-ReadsAs (c ∷ name) [] w w' 1 h in
    let packet = w'.written ++ rest in
    let whole : packet ≡ w.written ++ (e ++ rest) =
      ap (λ (u : Bytes). u ++ rest) wire ∙ append_assoc w.written e rest in
    let there : drop (length w.written) packet ≡ e ++ rest =
      ap (drop (length w.written)) whole ∙ drop-append w.written (e ++ rest) in
    let long = ap length whole ∙ length-append w.written (e ++ rest) in
    let inside : ltb (length w.written) (length packet) ≡ true = ground (
      arith,
      length-append e rest,
      ReadsAs-pos e (c ∷ name) 0 (length w.written) packet rest there reads,
    ) in
    rw inside (
      reads packet (length w.written) rest [] (name_fuel (length packet)) 0 there (omega arith)
        (omega (arith, length-append e rest))
      ∙ ap ok (λ i. (c ∷ name, stopped e wire i)))
  where
    stopped :
        (e : Bytes) → w'.written ≡ w.written ++ e → length w.written + length e ≡ length w'.written
    stopped e q = sym (length-append w.written e) ∙ sym (ap length q)
