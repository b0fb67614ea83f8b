-- ===== src/Transport/Tests.antt =====
-- The theorems of the transports at concrete values, and which transport a URL chooses.
use wrkx.Prelude.{◌≡◌, refl, codes}
use wrkx.Transport.Defs.{plain_sock, ssl_sock, choose_sock}

https : choose_sock (codes "https") ≡ ssl_sock
unfolding choose_sock
https = refl

http : choose_sock (codes "http") ≡ plain_sock
unfolding choose_sock
http = refl
