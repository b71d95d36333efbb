-- ===== src/Log.antt =====
-- The ring buffer of main/log_stream.c: what `log_capture_vprintf` puts in and what a round of
-- `log_response_send` takes out. `size_t` has 32 bits. The formatted text comes from the C library;
-- forwarding it to the previous handler is left out. The loop around the rounds is in `Log/Client`,
-- the worker that runs it is one of `Http/Pool`.
pub mod Ring
pub mod Reader
pub mod Client
pub mod Order
mod Tests
use esp32_wifi_gnss.Prelude.{
  ℕ, zero, suc, ◌+◌, ◌-◌, ◌%◌, ◌^◌, min, Bool, true, false, List, [], ◌∷◌, Bytes, length, get_or,
  set, take, ltb, if◌then◌else◌,
}

-- LOG_RING_BUFFER_SIZE
abbrev pub ring_buffer_size : ℕ
ring_buffer_size = 4096

-- LOG_LINE_MAX_LEN
abbrev pub line_max_len : ℕ
line_max_len = 256

-- LOG_SEND_CHUNK_SIZE
abbrev pub send_chunk_size : ℕ
send_chunk_size = 512

abbrev pub size_t : ℕ → ℕ
size_t n = n % 2 ^ 32

-- `s_ring_buffer` and `s_write_total`
pub record LogRing : Type 0 where
  pub ring_buffer : Bytes
  pub write_total : ℕ

-- The loop of `log_capture_vprintf`; `at` is `s_write_total + index`.
unfoldable pub ring_write : Bytes → ℕ → Bytes → Bytes
ring_write ring at [] = ring
ring_write ring at (byte ∷ line) =
    ring_write (set ring (size_t at % ring_buffer_size) byte) (suc at) line

-- `text` is what the format gives in full; `vsnprintf` stores at most 255 bytes of it.
unfoldable pub log_capture : Bytes → LogRing → LogRing
unfolding ring_write
log_capture text r =
    let len = min (length text) (line_max_len - 1) in
    record {
      ring_buffer = ring_write r.ring_buffer r.write_total (take len text);
      write_total = size_t (r.write_total + len);
    }

-- The loop that fills `chunk`.
unfoldable pub ring_read : Bytes → ℕ → ℕ → Bytes
ring_read ring at zero = []
ring_read ring at (suc count) =
    get_or ring (size_t at % ring_buffer_size) 0 ∷ ring_read ring (suc at) count

-- The first `last_sent` of a client.
unfoldable pub reader_start : LogRing → ℕ
reader_start r = if ltb ring_buffer_size r.write_total then r.write_total - ring_buffer_size else 0

-- A round: the chunk, and `last_sent` once it has been sent.
unfoldable pub chunk_take : LogRing → ℕ → Bytes × ℕ
unfolding ring_read
chunk_take r last_sent =
    let available = size_t (r.write_total + 2 ^ 32 - last_sent) in
    let wrapped = ltb ring_buffer_size available in
    let oldest =
      if wrapped then size_t (r.write_total + 2 ^ 32 - ring_buffer_size) else last_sent in
    let to_copy = min (if wrapped then ring_buffer_size else available) send_chunk_size in
    (ring_read r.ring_buffer oldest to_copy, size_t (oldest + to_copy))
