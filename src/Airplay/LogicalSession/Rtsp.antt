-- ===== src/Airplay/LogicalSession/Rtsp.antt =====
-- source/protocol/airplay/protocol/rtsp.h, `airplay_rtsp_request_header` of rtsp.c, and how
-- logical_session.c classifies a request.
use nx_cast.Base.{
  ℕ, zero, suc, ◌+◌, Bool, true, false, not, ◌&&◌, ◌||◌, Option, none, some, List, [], ◌∷◌, map,
  ltb, leb, ◌==◌, if◌then◌else◌,
}
use nx_cast.Base.Text.{Bytes, codes, bytes_eq, starts_with, contains}

pub data ConnectionKind : Type 0 where
  unknown raop airplay ble : ConnectionKind

unfoldable pub kind_eq : ConnectionKind → ConnectionKind → Bool
kind_eq unknown unknown = true
kind_eq raop raop = true
kind_eq airplay airplay = true
kind_eq ble ble = true
kind_eq _ _ = false

pub record Header : Type 0 where
  pub name : Bytes
  pub value : Bytes

-- The fields of `AirPlayRtspRequest` that the session manager reads.
pub record Request : Type 0 where
  pub uri : Bytes
  pub protocol : Bytes
  pub headers : List Header
  pub has_cseq : Bool

lower : ℕ → ℕ
lower c = if leb b'A' c && leb c b'Z' then c + 32 else c

-- `strcasecmp(left, right) == 0`.
unfoldable pub header_name_equal : Bytes → Bytes → Bool
unfolding lower bytes_eq
header_name_equal left right = bytes_eq (map lower left) (map lower right)

-- The value of the first header of that name.
unfoldable pub header_value : List Header → Bytes → Option Bytes
unfolding header_name_equal
header_value [] name = none
header_value (h ∷ hs) name =
    if header_name_equal h.name name then some h.value else header_value hs name

abbrev pub apple_session_header : Bytes
apple_session_header = codes "X-Apple-Session-ID"

-- `bounded_length`: at most `maximum + 1` bytes are read; the first argument is what is left.
bounded_length : ℕ → Bytes → ℕ
bounded_length zero text = 0
bounded_length (suc n) [] = 0
bounded_length (suc n) (c ∷ cs) = suc (bounded_length n cs)

abbrev pub apple_id_max : ℕ
apple_id_max = 128

-- Printable ASCII without the space.
all_visible : Bytes → Bool
all_visible [] = true
all_visible (c ∷ cs) = not (ltb c 0x21 || ltb 0x7e c) && all_visible cs

unfoldable pub valid_apple_session_id : Bytes → Bool
unfolding bounded_length all_visible
valid_apple_session_id value =
    let n = bounded_length (suc apple_id_max) value in
    if n == 0 || ltb apple_id_max n then false else all_visible value

uri_is_ble_info : Bytes → Bool
unfolding contains
uri_is_ble_info uri = contains (codes "txtAirPlay") uri || contains (codes "txtRAOP") uri

uri_is_pairing : Bytes → Bool
unfolding bytes_eq
uri_is_pairing uri =
    bytes_eq uri (codes "/pair-pin-start")
    || (bytes_eq uri (codes "/pair-setup-pin")
        || (bytes_eq uri (codes "/pair-setup") || bytes_eq uri (codes "/pair-verify")))

unfoldable pub is_remote_video : Request → Bool
unfolding bytes_eq starts_with
is_remote_video r =
    bytes_eq r.uri (codes "/play")
    || (bytes_eq r.uri (codes "/stop")
        || (bytes_eq r.uri (codes "/playback-info")
            || (bytes_eq r.uri (codes "/action")
                || (bytes_eq r.uri (codes "/rate")
                    || (starts_with (codes "/rate?") r.uri
                        || (bytes_eq r.uri (codes "/scrub")
                            || starts_with (codes "/scrub?") r.uri))))))

unfoldable pub requires_logical_binding : Request → Bool
unfolding is_remote_video
requires_logical_binding r = is_remote_video r || bytes_eq r.uri (codes "/reverse")

abbrev is_some {ℓ} : {A : Type ℓ} → Option A → Bool
is_some none = false
is_some (some _) = true

unfoldable pub classify_request : Request → Option Bytes → ConnectionKind
unfolding uri_is_ble_info uri_is_pairing bytes_eq
classify_request r apple_session_id =
    if uri_is_ble_info r.uri && (not r.has_cseq && bytes_eq r.protocol (codes "RTSP/1.0"))
    then ble
    else if r.has_cseq
    then raop
    else if is_some apple_session_id
        || (bytes_eq r.protocol (codes "HTTP/1.1") || uri_is_pairing r.uri)
    then airplay
    else unknown
