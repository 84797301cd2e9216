-- ===== src/Cor.antt =====
-- corRestCor.c: the frames of the cor:// transport, and how both ends read them. A tree's encoding is
-- the codec's, so the body of a frame is given as its bytes.
pub mod Read
pub mod Assemble
mod Tests
use cor_rest.Base.{
  ltb, if◌then◌else◌, Bytes, length, take, drop, get_elem?, codes, str_eq, ℕ, ◌+◌, ◌*◌, ◌/◌, ◌%◌,
  Bool, Option, none, some, List, [], ◌∷◌, ◌++◌,
}

-- frameMagic
abbrev pub frame_magic : Bytes
frame_magic = 0xc0 ∷ codes "OR" ++ 1 ∷ []

abbrev pub frame_header_len : ℕ
frame_header_len = 16

abbrev pub frame_max : ℕ
frame_max = 64 * 1024 * 1024

-- The size of a connection's read buffer
abbrev pub rbuf_size : ℕ
rbuf_size = 16 * 1024

-- As many bytes as there are, and as are wanted
abbrev pub smaller : ℕ → Bytes → ℕ
smaller n a = if ltb (length a) n then length a else n

-- A frame: its type, its correlation, and its body.
pub record Frame : Type 0 where
  pub frame_type : ℕ
  pub correlation : ℕ
  pub body : Bytes

-- The bytes of a uint32_t on a little-endian host
unfoldable pub le32 : ℕ → Bytes
le32 n = n % 256 ∷ n / 256 % 256 ∷ n / 65536 % 256 ∷ n / 16777216 % 256 ∷ []

-- memcpy of four bytes into a uint32_t
unfoldable pub read_le32 : Bytes → ℕ
read_le32 (a ∷ b ∷ c ∷ d ∷ s) = a + 256 * b + 65536 * c + 16777216 * d
read_le32 _ = 0

unfoldable pub header_bytes : ℕ → ℕ → ℕ → Bytes
unfolding le32
header_bytes type correlation len =
    frame_magic ++ (type ∷ 0 ∷ 0 ∷ 0 ∷ (le32 correlation ++ le32 len))

-- What frameSend and frameQueue write, the tree encoded as `body`.
unfoldable pub frame_bytes : Frame → Bytes
unfolding header_bytes
frame_bytes f = header_bytes f.frame_type f.correlation (length f.body) ++ f.body

-- The fields of a header
unfoldable pub header_correlation : Bytes → ℕ
unfolding read_le32
header_correlation h = read_le32 (drop 8 h)

unfoldable pub header_len : Bytes → ℕ
unfolding read_le32
header_len h = read_le32 (drop 12 h)

abbrev pub or_zero : Option ℕ → ℕ
or_zero none = 0
or_zero (some n) = n

unfoldable pub header_type : Bytes → ℕ
header_type h = or_zero (get_elem? h 4)

-- memcmp(header, frameMagic, 4) == 0
unfoldable pub has_magic : Bytes → Bool
unfolding str_eq
has_magic h = str_eq (take 4 h) frame_magic

-- What a socket has next: bytes, of which there is at least one, or something else.
pub data Arrival : Type 0 where
  arrive : ℕ → Bytes → Arrival
  not_yet interrupted closed broken timed_out : Arrival

-- What read() returns
pub data ReadResult : Type 0 where
  got : Bytes → ReadResult
  would_block intr eof fails times_out : ReadResult

-- What a read leaves of the bytes that had arrived
abbrev pub unread : Bytes → List Arrival → List Arrival
unread [] net = net
unread (c ∷ s) net = arrive c s ∷ net

-- read(fd, p, n), for n above 0
unfoldable pub sock_read : ℕ → List Arrival → ReadResult × List Arrival
sock_read n [] = (would_block, [])
sock_read n (arrive c s ∷ net) = (got (take n (c ∷ s)), unread (drop n (c ∷ s)) net)
sock_read n (not_yet ∷ net) = (would_block, net)
sock_read n (interrupted ∷ net) = (intr, net)
sock_read n (closed ∷ net) = (eof, net)
sock_read n (broken ∷ net) = (fails, net)
sock_read n (timed_out ∷ net) = (times_out, net)

-- All bytes that arrive
abbrev pub stream : List Arrival → Bytes
stream [] = []
stream (arrive c s ∷ net) = c ∷ s ++ stream net
stream (_ ∷ net) = stream net
