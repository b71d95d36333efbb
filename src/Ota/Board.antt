-- ===== src/Ota/Board.antt =====
-- What main/ota_update.c calls of ESP-IDF while it takes an upload: the PSA hash operation, the OTA
-- functions, and the request's socket and response. The laws are the documented behaviour, read
-- through a `View` of the board.
use Prim.Native.String.{String}
use esp32_wifi_gnss.Prelude.{
  ℕ, ◌≤◌, ◌≡◌, ◌⊎◌, Bool, true, Option, none, some, List, [], ◌∷◌, ◌++◌, Bytes, length,
  if◌then◌else◌,
}
use esp32_wifi_gnss.Esp.{EspErr, is_ok}
use esp32_wifi_gnss.Socket.{Received, data_in}

-- The arguments of `ota_send_text`; `none` is the server's own status, 200 OK.
pub record Reply : Type 0 where
  pub status : Option String
  pub text : Bytes

-- `esp_partition_t`
pub record Partition : Type 0 where
  pub address : ℕ
  pub size : ℕ
  pub label : Bytes

-- The partition selected for the next boot; what the hash operation has absorbed and what the OTA
-- handle has written, where they are in use; the body bytes and the replies so far.
pub record View : Type 0 where
  pub boot : ℕ
  pub hash : Option Bytes
  pub session : Option Bytes
  pub received : Bytes
  pub replies : List Reply

abbrev pub more : Bytes → Option Bytes → Option Bytes
more bytes none = none
more bytes (some old) = some (old ++ bytes)

abbrev pub arrived : Received → View → View
arrived (data_in bytes) v = record v { received = v.received ++ bytes }
arrived _ v = v

pub record Board : Type 1 where
  pub Dev : Type 0
  pub view : Dev → View
  pub sha256 : Bytes → Bytes
  pub is_image : Bytes → Bool
  -- `true` stands for PSA_SUCCESS
  pub psa_hash_setup : Dev → Bool × Dev
  pub psa_hash_update : Bytes → Dev → Bool × Dev
  pub psa_hash_finish : Dev → Option Bytes × Dev
  pub psa_hash_abort : Dev → Dev
  pub esp_ota_begin : Partition → Dev → EspErr × Dev
  pub esp_ota_write : Bytes → Dev → EspErr × Dev
  pub esp_ota_end : Dev → EspErr × Dev
  pub esp_ota_abort : Dev → Dev
  pub esp_ota_set_boot_partition : Partition → Dev → EspErr × Dev
  pub httpd_req_recv : ℕ → Dev → Received × Dev
  pub ota_send_text : Reply → Dev → EspErr × Dev
  pub view-setup :
      (d : Dev)
      → view (psa_hash_setup d).1
        ≡ (if (psa_hash_setup d).0 then record (view d) { hash = some [] } else view d)
  pub view-update :
      (b : Bytes) (d : Dev)
      → view (psa_hash_update b d).1 ≡ (
          if (psa_hash_update b d).0
          then record (view d) { hash = more b (view d).hash }
          else view d)
  -- An operation that fails to finish stays in use until it is aborted.
  pub view-finish :
      (d : Dev)
      → (((psa_hash_finish d).0 ≡ none) × (view (psa_hash_finish d).1 ≡ view d))
        ⊎ ((digest : Bytes) × ((psa_hash_finish d).0 ≡ some digest)
            × (view (psa_hash_finish d).1 ≡ record (view d) { hash = none })
            × ((absorbed : Bytes) → (view d).hash ≡ some absorbed → digest ≡ sha256 absorbed))
  pub view-hash_abort : (d : Dev) → view (psa_hash_abort d) ≡ record (view d) { hash = none }
  pub view-begin :
      (p : Partition) (d : Dev)
      → view (esp_ota_begin p d).1
        ≡ (if is_ok (esp_ota_begin p d).0 then record (view d) { session = some [] } else view d)
  pub view-write :
      (b : Bytes) (d : Dev)
      → view (esp_ota_write b d).1 ≡ (
          if is_ok (esp_ota_write b d).0
          then record (view d) { session = more b (view d).session }
          else view d)
  -- The handle is freed whatever the result is.
  pub view-end : (d : Dev) → view (esp_ota_end d).1 ≡ record (view d) { session = none }
  pub end-valid :
      (d : Dev) (written : Bytes)
      → is_ok (esp_ota_end d).0 ≡ true
      → (view d).session ≡ some written
      → is_image written ≡ true
  pub view-ota_abort : (d : Dev) → view (esp_ota_abort d) ≡ record (view d) { session = none }
  pub view-set_boot :
      (p : Partition) (d : Dev)
      → view (esp_ota_set_boot_partition p d).1 ≡ (
          if is_ok (esp_ota_set_boot_partition p d).0
          then record (view d) { boot = p.address }
          else view d)
  pub view-recv :
      (n : ℕ) (d : Dev) → view (httpd_req_recv n d).1 ≡ arrived (httpd_req_recv n d).0 (view d)
  pub size-recv :
      (n : ℕ) (d : Dev) (b : Bytes)
      → (httpd_req_recv n d).0 ≡ data_in b
      → (1 ≤ length b) × (length b ≤ n)
  pub view-send :
      (r : Reply) (d : Dev)
      → view (ota_send_text r d).1 ≡ record (view d) { replies = (view d).replies ++ r ∷ [] }
