-- ===== src/Version/Tests.antt =====
-- The version string of a build.
use esp32_wifi_gnss.Prelude.{◌≡◌, refl, codes}
use esp32_wifi_gnss.Version.{version_text}

main_build :
    version_text (codes "v1.2.0") (codes "main") (codes "0123456789abcdef0123456789abcdef")
    ≡ codes "v1.2.0+0123456789ab-main"
unfolding version_text
main_build = refl
