-- ===== src/Gnss/Copy.antt =====
-- `memcpy` between arrays.
use esp32_wifi_gnss.Prelude.{
  ℕ, ◌+◌, ◌≤◌, ◌≡◌, ap, ◌∙◌, ◌++◌, Bytes, length, take, drop, length-append, length-take,
  length-drop, get_or-append_left, get_or-take, take-append_self, arith,
}
use esp32_wifi_gnss.Nmea.Locality.{Agree}
use esp32_wifi_gnss.Gnss.{copy_bytes}

-- A copy that fits keeps the size of the array.
pub length-copy_bytes :
    (dst : Bytes) (offset : ℕ) (src : Bytes) (n : ℕ)
    → offset + n ≤ length dst
    → n ≤ length src
    → length (copy_bytes dst offset src n) ≡ length dst
unfolding copy_bytes
length-copy_bytes dst offset src n h l = omega (
  arith,
  length-append (take offset dst) (take n src ++ drop (offset + n) dst),
  length-append (take n src) (drop (offset + n) dst),
  length-take offset dst,
  length-take n src,
  length-drop (offset + n) dst,
)

-- The first `n` bytes of a copy to the start are those of the source.
pub copy_bytes-Agree :
    (dst src : Bytes) (n : ℕ) → n ≤ length src → Agree n (copy_bytes dst 0 src n) src
unfolding copy_bytes
copy_bytes-Agree dst src n l i h =
    get_or-append_left (take n src) (drop (0 + n) dst) i 0 (omega (arith, length-take n src))
    ∙ get_or-take src n i 0 h

pub take-copy_bytes :
    (dst src : Bytes) (n : ℕ) → n ≤ length src → take n (copy_bytes dst 0 src n) ≡ take n src
unfolding copy_bytes
take-copy_bytes dst src n l =
    ap (λ k. take k (take n src ++ drop (0 + n) dst)) (omega (arith, length-take n src))
    ∙ take-append_self (take n src) (drop (0 + n) dst)
