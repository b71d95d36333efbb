-- ===== src/Ota/Flash/Outcome.antt =====
-- What `ota_flash_receive` leaves behind, for each of its exits.
use Prim.Native.String.{String}
use esp32_wifi_gnss.Prelude.{
  ℕ, ◌≡◌, ◌⊎◌, inl, inr, refl, ap, ap₂, ◌∙◌, Bool, true, false, ◌&&◌, none, some, [], ◌∷◌, ◌++◌,
  Bytes, codes, text_codes, ◌||◌, length, ◌==◌, if◌then◌else◌, arith,
}
use esp32_wifi_gnss.Esp.{EspErr, esp_ok}
use esp32_wifi_gnss.Ota.Board.{Board, View, Reply}
use esp32_wifi_gnss.Ota.Flash.{
  AsyncRequest, Exit, same_bytes, refuse, accepted_reply, checksum_failed, flash_cleanup,
}

and_left : (a b : Bool) → (a && b) ≡ true → a ≡ true
and_left true b h = refl
and_left false b h = h

and_right : (a b : Bool) → (a && b) ≡ true → b ≡ true
and_right true b h = h
and_right false b h = cc

head_same : (a b : ℕ) → (a == b) ≡ true → a ≡ b
head_same a b h = ground arith

pub same_bytes_sound : (a b : Bytes) → same_bytes a b ≡ true → a ≡ b
unfolding same_bytes
same_bytes_sound [] [] h = refl
same_bytes_sound [] (b ∷ right) h = cc
same_bytes_sound (a ∷ left) [] h = cc
same_bytes_sound (a ∷ left) (b ∷ right) h =
    ap₂ (λ x y. x ∷ y) (head_same a b (and_left (a == b) _ h))
      (same_bytes_sound left right (and_right (a == b) _ h))

-- A status of the classes 4 and 5 of HTTP: its text starts with that digit.
abbrev pub starts_error : Bytes → Bool
starts_error [] = false
starts_error (c ∷ text) = c == b'4' || c == b'5'

abbrev pub is_error_status : String → Bool
is_error_status status = starts_error (codes status)

module _ (board : Board) (req : AsyncRequest) where
  open board use {
    Dev, view, sha256, is_image, view-setup, view-update, view-finish, view-hash_abort, view-begin,
    view-write, view-end, end-valid, view-ota_abort, view-set_boot, view-recv, size-recv, view-send,
    psa_hash_abort, esp_ota_abort, ota_send_text, esp_ota_set_boot_partition, esp_ota_end,
    psa_hash_finish, psa_hash_update, esp_ota_write, httpd_req_recv, esp_ota_begin, psa_hash_setup,
  }

  -- The result, `*restart_required` and the board, for a board that was `v` before.
  pub data Flashed (v : View) : EspErr × Bool × Dev → Type 0 where
    accepted :
        (body : Bytes) (d : Dev)
        → length body ≡ req.content_len
        → sha256 body ≡ req.expected_sha256
        → is_image body ≡ true
        → view d ≡ record {
          boot = req.update_partition.address;
          hash = none;
          session = none;
          received = v.received ++ body;
          replies = v.replies ++ accepted_reply board req ∷ [];
        }
        → Flashed v (esp_ok, true, d)
    refused :
        (result : EspErr) (status text : String) (d : Dev)
        → is_error_status status ≡ true
        → (view d).boot ≡ v.boot
        → (view d).session ≡ none
        → ((view d).hash ≡ none) ⊎ (text ≡ checksum_failed board req)
        → (view d).replies
          ≡ v.replies ++ record { status = some status; text = text_codes text } ∷ []
        → Flashed v (result, false, d)

  -- A board with the boot partition and the replies of `v`.
  pub record Kept (v : View) (d : Dev) : Type 0 where
    pub boot : (view d).boot ≡ v.boot
    pub replies : (view d).replies ≡ v.replies

  abort-hash :
      (b : Bool) (d : Dev)
      → view (if b then psa_hash_abort d else d)
        ≡ record (view d) { hash = if b then none else (view d).hash }
  abort-hash true d = view-hash_abort d
  abort-hash false d = refl

  abort-session :
      (b : Bool) (d : Dev)
      → view (if b then esp_ota_abort d else d)
        ≡ record (view d) { session = if b then none else (view d).session }
  abort-session true d = view-ota_abort d
  abort-session false d = refl

  -- What the label `cleanup` does to the board.
  abbrev tidied : Bool → Bool → View → View
  tidied ha oa v = record v {
    hash = if ha then none else v.hash;
    session = if oa then none else v.session;
  }

  cleanup-view :
      (e : Exit board req)
      → view (flash_cleanup board req e).2 ≡ tidied e.hash_active e.ota_active (view e.dev)
  unfolding flash_cleanup
  cleanup-view e =
      abort-session e.ota_active _
      ∙ ap {A = View} (λ v. record v { session = if e.ota_active then none else v.session })
          (abort-hash e.hash_active e.dev)

  pub refuse-Flashed :
      (v : View) (result : EspErr) (ha oa : Bool) (status text : String) (d : Dev)
      → is_error_status status ≡ true
      → Kept v d
      → ((if ha then none else (view d).hash) ≡ none) ⊎ (text ≡ checksum_failed board req)
      → (if oa then none else (view d).session) ≡ none
      → Flashed v (flash_cleanup board req (refuse board req result ha oa status text d))
  unfolding flash_cleanup
  refuse-Flashed v result ha oa status text d error k hash session =
      let reply : Reply = record { status = some status; text = text_codes text } in
      let e =
        cleanup-view (refuse board req result ha oa status text d)
        ∙ ap (tidied ha oa) (view-send reply d) in
      refused result status text _ error (ap (λ w. w.boot) e ∙ k.boot)
        (ap (λ w. w.session) e ∙ session)
        (elim hash [ inl h ↦ inl (ap (λ w. w.hash) e ∙ h) | inr h ↦ inr h ])
        (ap (λ w. w.replies) e ∙ ap (λ l. l ++ reply ∷ []) k.replies)
