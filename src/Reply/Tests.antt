-- ===== src/Reply/Tests.antt =====
use ucall.Prelude.{◌≡◌, refl, length}
use ucall.Reply.{http_header, http_header_size}

header_size : length http_header ≡ http_header_size
header_size = refl
