-- ===== src/Version.antt =====
-- main/app_version.c: the version string, built at the first call. `git_tag` and `flavor` are the
-- build's APP_VERSION_GIT_TAG and APP_VERSION_FLAVOR, `elf_sha256` is the text that
-- `esp_app_get_elf_sha256` gives.
mod Tests
use esp32_wifi_gnss.Prelude.{
  ℕ, zero, suc, ◌≤◌, ◌≡◌, refl, [], ◌∷◌, ◌++◌, Bytes, length, take, snprintf, length-snprintf, ◌==◌,
  if◌then◌else◌, either,
}

-- APP_VERSION_HASH_HEX_LEN
abbrev app_version_hash_hex_len : ℕ
app_version_hash_hex_len = 12

module _ (git_tag flavor elf_sha256 : Bytes) where
  -- "%s+%s-%s", in a buffer of 128 bytes.
  unfoldable pub version_text : Bytes
  version_text =
      snprintf 128
        (git_tag ++ (b'+' ∷ (take app_version_hash_hex_len elf_sha256 ++ (b'-' ∷ flavor))))

  -- The result is the static array `version`; an empty text there is the test for its first byte.
  unfoldable pub app_version_string : Bytes → Bytes
  unfolding version_text
  app_version_string version = if length version == 0 then version_text else version

  -- The array after `calls` calls.
  abbrev version_after : ℕ → Bytes
  version_after zero = []
  version_after (suc calls) = app_version_string (version_after calls)

  -- Every call gives the same text, of at most 127 characters.
  version_after-text :
      (calls : ℕ)
      → (version_after (suc calls) ≡ version_text) × (length (version_after (suc calls)) ≤ 127)
  unfolding app_version_string version_text
  version_after-text zero = (refl, length-snprintf 128 _)
  version_after-text (suc calls) =
      let (same, short) = version_after-text calls in
      let version = version_after (suc calls) in
      (
        either (λ (t : Bytes). t ≡ version_text) (length version == 0) _ _ refl same,
        either (λ (t : Bytes). length t ≤ 127) (length version == 0) _ _ (length-snprintf 128 _)
            short,
      )
