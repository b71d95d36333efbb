-- ===== src/Ota/Flash.antt =====
-- `ota_flash_receive` of main/ota_update.c. A `goto cleanup` is an `Exit` with the local variables
-- that the code at the label reads. `result` is what the C variable holds at that point: after
-- `esp_ota_begin` it stays ESP_OK until another call of ESP-IDF assigns it.
pub mod Outcome
pub mod Safety
pub mod Loop
use Prim.Native.String.{String}
use esp32_wifi_gnss.Prelude.{
  ℕ, zero, suc, ◌+◌, ◌-◌, ◌*◌, min, Bool, true, false, not, ◌&&◌, ◌||◌, Option, none, some, List,
  [], ◌∷◌, Bytes, text_codes, length, take, ltb, ◌==◌, if◌then◌else◌,
}
use esp32_wifi_gnss.Esp.{EspErr, esp_ok, esp_fail, is_ok}
use esp32_wifi_gnss.Socket.{Received, timed_out, closed, data_in}
use esp32_wifi_gnss.Ota.Board.{Board, Partition, Reply}

-- OTA_WRITE_BUFFER_SIZE
abbrev pub write_buffer_size : ℕ
write_buffer_size = 1024

-- OTA_SHA256_LEN
abbrev pub sha256_len : ℕ
sha256_len = 32

-- OTA_MAX_CONSECUTIVE_RECV_TIMEOUTS
abbrev pub max_consecutive_recv_timeouts : ℕ
max_consecutive_recv_timeouts = 3

-- `ota_async_request_t`, with `req->content_len`
pub record AsyncRequest : Type 0 where
  pub content_len : ℕ
  pub update_partition : Partition
  pub expected_sha256 : Bytes

-- `memcmp(a, b, n) == 0` for arrays of `n` bytes.
unfoldable pub same_bytes : Bytes → Bytes → Bool
same_bytes [] [] = true
same_bytes (a ∷ left) (b ∷ right) = a == b && same_bytes left right
same_bytes _ _ = false

module _ (board : Board) (async_req : AsyncRequest) where
  open board use {
    Dev, psa_hash_setup, psa_hash_update, psa_hash_finish, psa_hash_abort, esp_ota_begin,
    esp_ota_write, esp_ota_end, esp_ota_abort, esp_ota_set_boot_partition, httpd_req_recv,
    ota_send_text,
  }

  pub record Exit : Type 0 where
    pub result : EspErr
    pub restart_required : Bool
    pub hash_active : Bool
    pub ota_active : Bool
    pub dev : Dev

  -- An error reply, and `goto cleanup`.
  abbrev pub refuse : EspErr → Bool → Bool → String → String → Dev → Exit
  refuse result hash_active ota_active status text d = record {
    result = result;
    restart_required = false;
    hash_active = hash_active;
    ota_active = ota_active;
    dev = (ota_send_text (record { status = some status; text = text_codes text }) d).1;
  }

  abbrev pub accepted_reply : Reply
  accepted_reply = record {
    status = none;
    text =
        text_codes
          "firmware accepted; rebooting into pending image\nreconnect and POST /flash/confirm before the rollback timeout\n";
  }

  abbrev pub checksum_failed : String
  checksum_failed = "checksum calculation failed\n"

  unfoldable pub flash_select : Dev → Exit
  flash_select d =
      let (result, d') = esp_ota_set_boot_partition async_req.update_partition d in
      if is_ok result
      then record {
        result = esp_ok;
        restart_required = true;
        hash_active = false;
        ota_active = false;
        dev = (ota_send_text accepted_reply d').1;
      }
      else refuse result false false "500 Internal Server Error"
          "failed to select uploaded firmware\n" d'

  unfoldable pub flash_end : Dev → Exit
  unfolding flash_select
  flash_end d =
      let (result, d') = esp_ota_end d in
      if is_ok result
      then flash_select d'
      else refuse result false false "422 Unprocessable Content" "ESP-IDF rejected firmware image\n"
          d'

  unfoldable pub flash_compare : Bytes → Dev → Exit
  unfolding flash_end
  flash_compare actual_sha256 d =
      if same_bytes actual_sha256 async_req.expected_sha256
      then flash_end d
      else refuse esp_ok false true "422 Unprocessable Content" "firmware SHA-256 mismatch\n" d

  -- From the end of the loop on.
  unfoldable pub flash_finish : Dev → Exit
  unfolding flash_compare
  flash_finish d =
      let (digest, d') = psa_hash_finish d in
      elim digest [
        | none ↦ refuse esp_ok false true "500 Internal Server Error" checksum_failed d'
        | some actual_sha256 ↦
            if length actual_sha256 == sha256_len
            then flash_compare actual_sha256 d'
            else refuse esp_ok false true "500 Internal Server Error" checksum_failed d'
      ]

  -- The loop's work on `received` bytes; `rest` is the loop from its head on.
  unfoldable pub flash_write : (ℕ → ℕ → Dev → Option Exit) → ℕ → Bytes → Dev → Option Exit
  flash_write rest remaining bytes d =
      let (hashed, d1) = psa_hash_update bytes d in
      let (result, d2) = esp_ota_write bytes d1 in
      if not hashed
      then some (refuse esp_ok true true "500 Internal Server Error" checksum_failed d1)
      else if is_ok result
      then rest (remaining - length bytes) 0 d2
      else some (
          refuse result true true "422 Unprocessable Content" "firmware write validation failed\n"
            d2)

  -- A round of the loop.
  unfoldable pub flash_round : (ℕ → ℕ → Dev → Option Exit) → ℕ → ℕ → Received × Dev → Option Exit
  unfolding flash_write
  flash_round rest remaining timeouts (timed_out, d) =
      if ltb (suc timeouts) max_consecutive_recv_timeouts
      then rest remaining (suc timeouts) d
      else some (refuse esp_ok true true "408 Request Timeout" "firmware upload timed out\n" d)
  flash_round rest remaining timeouts (closed, d) =
      some (refuse esp_ok true true "400 Bad Request" "incomplete firmware upload\n" d)
  flash_round rest remaining timeouts (data_in bytes, d) = flash_write rest remaining bytes d

  -- `while (remaining > 0)`, and what follows it; `none` when the fuel does not do.
  unfoldable pub flash_loop : ℕ → ℕ → ℕ → Dev → Option Exit
  unfolding flash_round flash_finish
  flash_loop zero remaining timeouts d = none
  flash_loop (suc fuel) zero timeouts d = some (flash_finish d)
  flash_loop (suc fuel) (suc left) timeouts d =
      flash_round (flash_loop fuel) (suc left) timeouts
        (httpd_req_recv (min (suc left) write_buffer_size) d)

  -- Every third round at least brings a byte.
  abbrev pub enough_fuel : ℕ → ℕ
  enough_fuel remaining = 3 * remaining + 3

  unfoldable pub flash_begin : Dev → Option Exit
  unfolding flash_loop
  flash_begin d =
      let (result, d') = esp_ota_begin async_req.update_partition d in
      if is_ok result
      then flash_loop (enough_fuel async_req.content_len) async_req.content_len 0 d'
      else some
          (refuse result true false "500 Internal Server Error" "failed to begin OTA update\n" d')

  unfoldable pub flash_setup : Dev → Option Exit
  unfolding flash_begin
  flash_setup d =
      let (ready, d') = psa_hash_setup d in
      if ready
      then flash_begin d'
      else some (
          refuse esp_fail false false "500 Internal Server Error" "failed to initialize checksum\n"
            d')

  -- The label `cleanup`.
  unfoldable pub flash_cleanup : Exit → EspErr × Bool × Dev
  flash_cleanup e =
      let d1 = if e.hash_active then psa_hash_abort e.dev else e.dev in
      let d2 = if e.ota_active then esp_ota_abort d1 else d1 in (e.result, e.restart_required, d2)

  -- `result`, `*restart_required` and the board.
  unfoldable pub flash_receive : Dev → Option (EspErr × Bool × Dev)
  unfolding flash_setup flash_cleanup
  flash_receive d = elim (flash_setup d) [ none ↦ none | some e ↦ some (flash_cleanup e) ]
